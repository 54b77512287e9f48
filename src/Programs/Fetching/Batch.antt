-- ===== src/Programs/Fetching/Batch.antt =====
-- The program `blockfetch` on a batch of blocks.
use Prim.Native.String.{String}
use rust_cardano_ouroboros_n.Prelude.{
  ℕ, zero, suc, ◌+◌, ◌<◌, ◌≡◌, ◌≢◌, refl, sym, ap, ◌∙◌, List, [], ◌∷◌, append-nil, All, length,
  concat, none, some, false,
}
use rust_cardano_ouroboros_n.Prelude.Int.{IsU32}
use rust_cardano_ouroboros_n.Prelude.Outcome.{Outcome, ok, err, panic}
use rust_cardano_ouroboros_n.Model.{Bytes, point_from}
use rust_cardano_ouroboros_n.Cbor.{Codec, IsCodec}
use rust_cardano_ouroboros_n.Protocol.{Channel, Execution}
use rust_cardano_ouroboros_n.Protocol.Stream.{encode, encode_all, IsWritable}
use rust_cardano_ouroboros_n.BlockFetch.{
  State, request_range, start_batch, to_values, Config, BlockFetch, builder, set_first, set_last,
  client_of, Next, yielded, next, run, Drained, all_blocks, interrupted, and_then, after_next,
  drain, after_run, fetch_range,
}
use rust_cardano_ouroboros_n.BlockFetch.Machine.{at, stream_values}
use rust_cardano_ouroboros_n.BlockFetch.Request.{fetch_range_batch}
use rust_cardano_ouroboros_n.ChainSync.Session.{ready}
use rust_cardano_ouroboros_n.Handshake.Versions.{Version}
use rust_cardano_ouroboros_n.Handshake.Messages.{accept_items}
use rust_cardano_ouroboros_n.Handshake.Agreement.{Has, proposal_items}
use rust_cardano_ouroboros_n.Handshake.Builder.{with_peers, versions_of}
use rust_cardano_ouroboros_n.Programs.Opening.{negotiate_as-accept}
use rust_cardano_ouroboros_n.Programs.Sync.{Has-FitsWord}
use rust_cardano_ouroboros_n.Programs.Store.{Tree, Blocks, handle_block, handle_blocks, after_block}
use rust_cardano_ouroboros_n.Programs.Fetching.{
  Fetched, stored, after_handled, after_opening, ends_with, after_next_block, store_blocks,
  after_run_blocks, blockfetch,
}

module _ {Db Block : Type 0} (tree : Tree Db) (lib : Blocks Block) where
  ends_with-block :
      (b : Bytes) (bs : List Bytes) (s s' : BlockFetch) (ch ch' : Channel) (more : Db → Fetched Db)
      (o : Outcome (Unit {0}) × Db)
      → ((db : Db) → more db ≡ ends_with s ch (handle_blocks tree lib bs db))
      → after_handled o more ≡ ends_with s ch (after_block tree lib (handle_blocks tree lib bs) o)
  ends_with-block b bs s s' ch ch' more (ok _, db) h = h db
  ends_with-block b bs s s' ch ch' more (err e, db) h = refl
  ends_with-block b bs s s' ch ch' more (panic, db) h = refl

  -- Storing each block as it comes has the effect of taking all blocks and storing them.
  store_blocks-drain :
      (codec : Codec) (rounds fuel : ℕ) (s s' : BlockFetch) (ch ch' : Channel) (bs : List Bytes)
      (db : Db)
      → drain codec rounds fuel s ch ≡ all_blocks bs s' ch'
      → store_blocks tree lib codec rounds fuel s ch db
        ≡ ends_with s' ch' (handle_blocks tree lib bs db)
  unfolding drain store_blocks handle_blocks
  store_blocks-drain codec zero fuel s s' ch ch' bs db e = cc
  store_blocks-drain codec (suc rounds) fuel s s' ch ch' bs db e =
      by_next (next codec fuel s ch) e
        (λ u c bs' db'. store_blocks-drain codec rounds fuel u s' c ch' bs' db')
    where
      by_drained :
          (b : Bytes) (bs' : List Bytes) (u : BlockFetch) (c : Channel) (x : Drained)
          → drain codec rounds fuel u c ≡ x
          → and_then b x ≡ all_blocks bs' s' ch'
          → ((bs'' : List Bytes) (db' : Db)
              → drain codec rounds fuel u c ≡ all_blocks bs'' s' ch'
              → store_blocks tree lib codec rounds fuel u c db'
                ≡ ends_with s' ch' (handle_blocks tree lib bs'' db'))
          → after_handled (handle_block tree lib b db) (store_blocks tree lib codec rounds fuel u c)
            ≡ ends_with s' ch' (handle_blocks tree lib bs' db)
      by_drained b bs' u c (all_blocks bs'' v d) q p ih =
          let same : b ∷ bs'' ≡ bs' = cc p in
          ends_with-block b bs'' s' s' ch' ch' (store_blocks tree lib codec rounds fuel u c)
            (handle_block tree lib b db) (λ db'. ih bs'' db' (cc (q, p)))
          ∙ ap (λ l. ends_with s' ch' (handle_blocks tree lib l db)) same
      by_drained b bs' u c (interrupted bs'') q p ih = cc

      by_next :
          (n : Next)
          → after_next (drain codec rounds fuel) n ≡ all_blocks bs s' ch'
          → ((u : BlockFetch) (c : Channel) (bs' : List Bytes) (db' : Db)
              → drain codec rounds fuel u c ≡ all_blocks bs' s' ch'
              → store_blocks tree lib codec rounds fuel u c db'
                ≡ ends_with s' ch' (handle_blocks tree lib bs' db'))
          → after_next_block tree lib (store_blocks tree lib codec rounds fuel) db n
            ≡ ends_with s' ch' (handle_blocks tree lib bs db)
      by_next (yielded none u c) p ih =
          let nothing : [] ≡ bs = cc p in
          let same : stored db u c ≡ stored db s' ch' = cc p in
          same ∙ ap (λ l. ends_with s' ch' (handle_blocks tree lib l db)) nothing
      by_next (yielded (some b) u c) p ih = by_drained b bs u c _ refl p (ih u c)
      by_next (Next.waiting u c held) p ih = cc
      by_next Next.panicked p ih = cc
      by_next Next.stuck p ih = cc

  run_blocks-fetch_range :
      (codec : Codec) (rounds fuel : ℕ) (s s' : BlockFetch) (ch ch' : Channel) (bs : List Bytes)
      (db : Db)
      → fetch_range codec rounds fuel s ch ≡ all_blocks bs s' ch'
      → after_run_blocks tree lib (store_blocks tree lib codec rounds fuel) db (run codec fuel s ch)
        ≡ ends_with s' ch' (handle_blocks tree lib bs db)
  unfolding fetch_range
  run_blocks-fetch_range codec rounds fuel s s' ch ch' bs db e = by_run (run codec fuel s ch) e
    where
      by_run :
          (x : Execution BlockFetch)
          → after_run (drain codec rounds fuel) x ≡ all_blocks bs s' ch'
          → after_run_blocks tree lib (store_blocks tree lib codec rounds fuel) db x
            ≡ ends_with s' ch' (handle_blocks tree lib bs db)
      by_run (Execution.finished u c) p = store_blocks-drain codec rounds fuel u s' c ch' bs db p
      by_run (Execution.waiting u c held) p = cc
      by_run Execution.panicked p = cc
      by_run Execution.stuck p = cc

  -- The program `blockfetch`, from a connection that is made: the server accepts one of the versions 6
  -- and 7 in the pieces `welcome`, announces a batch, sends the blocks `bs` and ends the batch in the
  -- pieces `batch`, and both ends of the program's range can be decoded. Then the program handles
  -- exactly these blocks in their order: it ends well with the database that they lead to if each can be
  -- handled, and the client is idle again with nothing but the request for the range sent; it ends with
  -- the error, or the panic, of the first block that cannot be handled, and with the database as it was
  -- left. No piece is empty, the magic fits 32 bits, the encoder accepts all messages, there are more
  -- rounds than blocks, and fuel is two turns more than the pieces of each answer.
  pub blockfetch-handle_blocks :
      (codec : Codec) (laws : IsCodec codec) (decode : String → Outcome Bytes) (magic : ℕ)
      (v : Version) (first last : Bytes) (welcome batch bs : List Bytes) (rounds fuel : ℕ) (db : Db)
      → let config : Config = record {
        first = point_from 26249860 first;
        last = point_from 26250057 last;
      } in
        let request = to_values (request_range config.first config.last) in
        decode "915386f44ad3a7fccee949c9d3fe43f5a20459c7401f990e1cc7d52c10be1fd6" ≡ ok first
        → decode "5fec758c8aaff4a7683c27b075dc3984d8d982839cc56470a682d1411c9f8198" ≡ ok last
        → Has v (versions_of with_peers)
        → IsU32 magic
        → IsWritable codec (proposal_items (versions_of with_peers) magic)
        → IsWritable codec (accept_items v magic)
        → All (λ piece. piece ≢ []) welcome
        → concat welcome ≡ encode codec (accept_items v magic)
        → length welcome + 1 < fuel
        → IsWritable codec request
        → All (IsWritable codec) (to_values start_batch ∷ stream_values bs)
        → All (λ piece. piece ≢ []) batch
        → concat batch ≡ encode_all codec (to_values start_batch ∷ stream_values bs)
        → length bs < rounds
        → length batch + 1 < fuel
        → blockfetch tree lib codec decode magic rounds fuel (ready welcome []) (ready batch []) db
          ≡ ends_with
              (at codec config false State.idle [] false)
              (ready [] (encode codec request ∷ []))
              (handle_blocks tree lib bs db)
  unfolding blockfetch client_of set_first set_last builder
  blockfetch-handle_blocks codec laws decode magic v first last welcome batch bs rounds fuel db e₁
        e₂ hv hm wp wa nw cw lw wr w nb cb lt enough =
      let config : Config = record {
        first = point_from 26249860 first;
        last = point_from 26250057 last;
      } in
      ap (after_opening _ db) (
        (negotiate_as-accept codec laws with_peers magic v welcome fuel (Has-FitsWord v hv) hm wp wa
            nw cw lw).0
          hv)
      ∙ rw (e₁, e₂)
          (run_blocks-fetch_range codec rounds fuel (at codec config false State.idle [] false) _
            (ready batch []) _ bs db
            (ap
                (λ l.
                  fetch_range codec rounds fuel (at codec config false State.idle [] false)
                    (ready l []))
                (sym (append-nil batch))
              ∙ fetch_range_batch codec laws config batch [] [] rounds fuel false bs wr w nb cb lt
                  enough))
