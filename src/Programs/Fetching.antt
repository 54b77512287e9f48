-- ===== src/Programs/Fetching.antt =====
-- examples/blockfetch.rs: a range of blocks is fetched, and each block is stored as it comes.
pub mod Batch
mod Examples
use Prim.Native.String.{String}
use rust_cardano_ouroboros_n.Prelude.{
  ℕ, zero, suc, ◌+◌, ◌<◌, ◌≡◌, ◌≢◌, refl, sym, ap, ◌∙◌, inl, inr, List, [], ◌∷◌, ◌++◌, append-nil,
  All, length, concat, none, some, false, arith,
}
use rust_cardano_ouroboros_n.Prelude.Int.{IsU32}
use rust_cardano_ouroboros_n.Prelude.Outcome.{Outcome, ok, err, panic, ◌>>=◌, Error}
use rust_cardano_ouroboros_n.Model.{Bytes, Point, point_from}
use rust_cardano_ouroboros_n.Cbor.{Codec, IsCodec}
use rust_cardano_ouroboros_n.Protocol.{client, Channel, Execution}
use rust_cardano_ouroboros_n.Protocol.Stream.{encode, encode_all, IsWritable}
use rust_cardano_ouroboros_n.BlockFetch.{
  State, request_range, start_batch, to_values, Config, BlockFetch, builder, set_first, set_last,
  client_of, Next, yielded, next, run, Drained, all_blocks, interrupted, and_then, after_next,
  drain, after_run, fetch_range,
}
use rust_cardano_ouroboros_n.BlockFetch.Machine.{at, stream_values}
use rust_cardano_ouroboros_n.BlockFetch.Request.{fetch_range_batch}
use rust_cardano_ouroboros_n.ChainSync.Session.{ready}
use rust_cardano_ouroboros_n.Handshake.Versions.{Version}
use rust_cardano_ouroboros_n.Handshake.Messages.{accept_items}
use rust_cardano_ouroboros_n.Handshake.Agreement.{Has, proposal_items}
use rust_cardano_ouroboros_n.Handshake.Builder.{with_peers, versions_of}
use rust_cardano_ouroboros_n.Programs.{Ended, negotiate_as, peer_builder}
use rust_cardano_ouroboros_n.Programs.Opening.{negotiate_as-accept}
use rust_cardano_ouroboros_n.Programs.Sync.{Has-FitsWord}
use rust_cardano_ouroboros_n.Programs.Store.{Tree, Blocks, handle_block, handle_blocks, after_block}

-- How the program ends, with the database: `Ok(())`, an error that `?` passes on, at an `await`, or by a
-- panic. `stuck` has no counterpart in the program.
pub data Fetched (Db : Type 0) : Type 0 where
  stored : Db → BlockFetch → Channel → Fetched Db
  fails : Error → Db → Fetched Db
  waits panicked stuck : Db → Fetched Db

-- The builder's calls with the two ends of the range, over the hex decoder.
unfoldable pub configured : (String → Outcome Bytes) → Outcome BlockFetch
configured decode =
    decode "915386f44ad3a7fccee949c9d3fe43f5a20459c7401f990e1cc7d52c10be1fd6" >>= λ first.
    decode "5fec758c8aaff4a7683c27b075dc3984d8d982839cc56470a682d1411c9f8198" >>= λ last.
    client_of (set_last 26250057 last (set_first 26249860 first builder))

module _ {Db : Type 0} where
  abbrev pub after_handled : Outcome (Unit {0}) × Db → (Db → Fetched Db) → Fetched Db
  after_handled (ok _, db) more = more db
  after_handled (err e, db) more = fails e db
  after_handled (panic, db) more = panicked db

  abbrev pub after_opening : Fetched Db → Db → Ended (Version × ℕ) → Fetched Db
  after_opening more db (Ended.finished v) = more
  after_opening more db (Ended.failed e) = fails e db
  after_opening more db Ended.waits = waits db
  after_opening more db Ended.panics = panicked db
  after_opening more db Ended.out_of_fuel = stuck db

  -- What is left of the program when it has all blocks.
  abbrev pub ends_with : BlockFetch → Channel → Outcome (Unit {0}) × Db → Fetched Db
  ends_with s ch (ok _, db) = stored db s ch
  ends_with s ch (err e, db) = fails e db
  ends_with s ch (panic, db) = panicked db

module _ {Db Block : Type 0} (tree : Tree Db) (lib : Blocks Block) where
  abbrev pub after_next_block : (BlockFetch → Channel → Db → Fetched Db) → Db → Next → Fetched Db
  after_next_block more db (yielded none s ch) = stored db s ch
  after_next_block more db (yielded (some b) s ch) =
      after_handled (handle_block tree lib b db) (more s ch)
  after_next_block more db (Next.waiting s ch held) = waits db
  after_next_block more db Next.panicked = panicked db
  after_next_block more db Next.stuck = stuck db

  -- `while let Some(block) = blocks.next().await? { cfg.handle_block(&block)?; }`, some rounds of it.
  unfoldable pub store_blocks : Codec → ℕ → ℕ → BlockFetch → Channel → Db → Fetched Db
  store_blocks codec zero fuel s ch db = stuck db
  store_blocks codec (suc rounds) fuel s ch db =
      after_next_block (store_blocks codec rounds fuel) db (next codec fuel s ch)

  abbrev pub after_run_blocks :
      (BlockFetch → Channel → Db → Fetched Db) → Db → Execution BlockFetch → Fetched Db
  after_run_blocks more db (Execution.finished s ch) = more s ch db
  after_run_blocks more db (Execution.waiting s ch held) = waits db
  after_run_blocks more db Execution.panicked = panicked db
  after_run_blocks more db Execution.stuck = stuck db

  abbrev pub after_configured : Codec → ℕ → ℕ → Channel → Db → Outcome BlockFetch → Fetched Db
  after_configured codec rounds fuel ch db (ok s) =
      after_run_blocks (store_blocks codec rounds fuel) db (run codec fuel s ch)
  after_configured codec rounds fuel ch db (err e) = fails e db
  after_configured codec rounds fuel ch db panic = panicked db

  -- `blockfetch`, on the channels of the handshake and of block-fetch.
  unfoldable pub blockfetch :
      Codec → (String → Outcome Bytes) → ℕ → ℕ → ℕ → Channel → Channel → Db → Fetched Db
  unfolding peer_builder configured
  blockfetch codec decode magic rounds fuel handshake_channel ch db =
      after_opening (after_configured codec rounds fuel ch db (configured decode)) db
        (negotiate_as codec client (peer_builder magic) fuel handshake_channel)
