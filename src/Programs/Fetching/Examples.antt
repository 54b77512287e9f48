-- ===== src/Programs/Fetching/Examples.antt =====
-- A concrete run of `blockfetch`, and the theorem at it.
use Prim.Native.String.{String}
use rust_cardano_ouroboros_n.Prelude.{◌≡◌, inl, inr, refl, List, [], ◌∷◌, take, drop, false, arith}
use rust_cardano_ouroboros_n.Prelude.Int.{pos}
use rust_cardano_ouroboros_n.Prelude.Outcome.{Outcome, ok, err, cbor_error}
use rust_cardano_ouroboros_n.Model.{Bytes, point_from}
use rust_cardano_ouroboros_n.Cbor.Sample.{sample, sample-IsCodec}
use rust_cardano_ouroboros_n.Protocol.Stream.{encode, encode_all}
use rust_cardano_ouroboros_n.BlockFetch.{State, Config, request_range, start_batch, to_values}
use rust_cardano_ouroboros_n.BlockFetch.Machine.{at, stream_values}
use rust_cardano_ouroboros_n.ChainSync.Session.{ready}
use rust_cardano_ouroboros_n.Handshake.Versions.{n2n}
use rust_cardano_ouroboros_n.Handshake.Messages.{accept_items}
use rust_cardano_ouroboros_n.Programs.Store.{Record, Tree, Blocks, handle_blocks}
use rust_cardano_ouroboros_n.Programs.Fetching.{ends_with, blockfetch}
use rust_cardano_ouroboros_n.Programs.Fetching.Batch.{blockfetch-handle_blocks}

-- A database that puts the newest record in front, and blocks that are their bytes, with the first of
-- them for a hash.
abbrev tree : Tree (List Record)
tree = record { insert = λ key value db. ok ((key, value) ∷ db); records = λ db. db }

abbrev decode_block : Bytes → Outcome Bytes
decode_block [] = err cbor_error
decode_block (b ∷ bytes) = ok (b ∷ bytes)

abbrev blocks : Blocks Bytes
blocks = record { decode = decode_block; header_hash = take 1; crawl = λ block. ok tt }

abbrev decode : String → Outcome Bytes
decode text = ok (1 ∷ 2 ∷ [])

abbrev config : Config
config = record {
  first = point_from 26249860 (1 ∷ 2 ∷ []);
  last = point_from 26250057 (1 ∷ 2 ∷ []);
}

abbrev fetched : List Bytes
fetched = (7 ∷ 8 ∷ []) ∷ [] ∷ (9 ∷ []) ∷ []

abbrev cut_at_nine : Bytes → List Bytes
cut_at_nine bytes = take 9 bytes ∷ drop 9 bytes ∷ []

blockfetch-handle_blocks_example :
    blockfetch tree blocks sample decode 9 4 4
      (ready (cut_at_nine (encode sample (accept_items (n2n (pos 7)) 9))) [])
      (ready (cut_at_nine (encode_all sample (to_values start_batch ∷ stream_values fetched))) [])
      []
    ≡ ends_with
        (at sample config false State.idle [] false)
        (ready [] (encode sample (to_values (request_range config.first config.last)) ∷ []))
        (handle_blocks tree blocks fetched [])
unfolding to_values point_from
blockfetch-handle_blocks_example =
    blockfetch-handle_blocks tree blocks sample sample-IsCodec decode 9 (n2n (pos 7)) (1 ∷ 2 ∷ [])
      (1 ∷ 2 ∷ []) (cut_at_nine (encode sample (accept_items (n2n (pos 7)) 9)))
      (cut_at_nine (encode_all sample (to_values start_batch ∷ stream_values fetched))) fetched 4 4
      [] refl refl (inr (inl refl)) (omega arith) refl refl ((λ e. cc), ((λ e. cc), tt)) refl
      (omega arith) refl (refl, (refl, (refl, (refl, (refl, tt))))) ((λ e. cc), ((λ e. cc), tt))
      refl (omega arith) (omega arith)
