-- ===== src/Programs/Serving/Examples.antt =====
-- A concrete run of the server, and the theorem at it.
use rust_cardano_ouroboros_n.Prelude.{◌≡◌, refl, List, [], ◌∷◌, take, drop, arith}
use rust_cardano_ouroboros_n.Prelude.Int.{pos}
use rust_cardano_ouroboros_n.Prelude.Outcome.{unexpected}
use rust_cardano_ouroboros_n.Model.{Bytes, Point}
use rust_cardano_ouroboros_n.Cbor.{Items, integer, nil, ◌▸◌}
use rust_cardano_ouroboros_n.Cbor.Sample.{sample, sample-IsCodec}
use rust_cardano_ouroboros_n.Protocol.Stream.{encode}
use rust_cardano_ouroboros_n.Handshake.{accept_version, from_iter}
use rust_cardano_ouroboros_n.Handshake.Versions.{n2n}
use rust_cardano_ouroboros_n.Handshake.Messages.{accept_items, from_iter-accept_items}
use rust_cardano_ouroboros_n.Programs.{Config}
use rust_cardano_ouroboros_n.Programs.Serving.{
  listens, awaits_client, crashed, serve_all, Asks, Babbles, serve_all-clients,
}

abbrev here : Point
here = record { slot = 42; hash = 1 ∷ 2 ∷ [] }

abbrev cfg : Config
cfg = record { magic = 9; byron_mainnet = here; byron_testnet = here; byron_guild = here }

-- Any message that can be read will do.
abbrev good : List Bytes
good =
    take 9 (encode sample (accept_items (n2n (pos 7)) 9))
    ∷ drop 9 (encode sample (accept_items (n2n (pos 7)) 9))
    ∷ []

abbrev noise : Items
noise = integer (pos 5) ▸ nil

good-Asks : Asks sample sample-IsCodec cfg 4 good
good-Asks = record {
  values = accept_items (n2n (pos 7)) 9;
  message = accept_version (n2n (pos 7)) 9;
  readable = from_iter-accept_items (n2n (pos 7)) 9 (omega arith) (omega arith);
  writable = refl;
  full = ((λ e. cc), ((λ e. cc), tt));
  bytes = refl;
  enough = omega arith;
}

noise-Babbles : Babbles sample sample-IsCodec cfg 4 (encode sample noise ∷ [])
unfolding from_iter
noise-Babbles = record {
  values = noise;
  error = unexpected;
  unreadable = refl;
  writable = refl;
  bytes = refl;
}

serve_all-clients_example :
    (serve_all sample cfg 4 (good ∷ good ∷ []) ≡ listens 2)
    × (serve_all sample cfg 4 (good ∷ good ∷ (encode sample noise ∷ []) ∷ good ∷ []) ≡ crashed 2)
    × (serve_all sample cfg 4 (good ∷ good ∷ [] ∷ good ∷ []) ≡ awaits_client 2)
serve_all-clients_example =
    serve_all-clients sample sample-IsCodec cfg 4 (good ∷ good ∷ []) (good ∷ [])
      (encode sample noise ∷ []) refl (omega arith) (good-Asks, (good-Asks, tt)) noise-Babbles
