-- ===== src/BlockFetch/Machine.antt =====
-- The block-fetch machine message by message, and the values of a batch.
use rust_cardano_ouroboros_n.Prelude.{
  ◌≡◌, ◌⊎◌, inl, inr, refl, ◌∙◌, List, [], ◌∷◌, ◌++◌, append_assoc, append-nil, Bool, false, arith,
}
use rust_cardano_ouroboros_n.Prelude.Outcome.{ok}
use rust_cardano_ouroboros_n.Model.{Bytes}
use rust_cardano_ouroboros_n.Cbor.{Codec, Items}
use rust_cardano_ouroboros_n.Protocol.{handle}
use rust_cardano_ouroboros_n.Protocol.Receive.{handle_all}
use rust_cardano_ouroboros_n.Protocol.Execute.{handle-recv}
use rust_cardano_ouroboros_n.Protocol.Fuel.{Alternates}
use rust_cardano_ouroboros_n.BlockFetch.{
  State, idle, busy, streaming, start_batch, no_blocks, block, batch_done, to_values, Config,
  BlockFetch, agency, send, recv, protocol,
}
use rust_cardano_ouroboros_n.BlockFetch.Messages.{from_iter-to_values_blockfetch}

-- Whoever sends a block-fetch message in its turn waits for the server or is done.
pub send-Alternates : (codec : Codec) → Alternates (protocol codec)
unfolding agency send
send-Alternates codec s m h₁ h₂ e = ground arith

-- The blocks of a batch, and what ends it, as the server writes them.
abbrev pub block_values : List Bytes → List Items
block_values [] = []
block_values (b ∷ bs) = to_values (block b) ∷ block_values bs

abbrev pub stream_values : List Bytes → List Items
stream_values [] = to_values batch_done ∷ []
stream_values (b ∷ bs) = to_values (block b) ∷ stream_values bs

-- A first part of a batch is some of its blocks, or the whole batch.
pub split_stream :
    (bs : List Bytes) (whole later : List Items)
    → stream_values bs ≡ whole ++ later
    → ((front back : List Bytes) × (bs ≡ front ++ back)
        × (whole ≡ block_values front)
        × (later ≡ stream_values back))
      ⊎ ((whole ≡ stream_values bs) × (later ≡ []))
split_stream bs [] later e = inl ([], bs, refl, refl, cc)
split_stream [] (w ∷ []) later e = inr (cc, cc)
split_stream [] (w ∷ x ∷ ws) later e = cc
split_stream (b ∷ bs) (w ∷ ws) later e = elim (split_stream bs ws later (cc)) [
  | inl (front, back, p, q, r) ↦ inl (b ∷ front, back, cc, cc, r)
  | inr (p, q) ↦ inr (cc, q)
]

module _ (codec : Codec) (config : Config) (closing : Bool) where
  -- A client in a state, with blocks that were not taken yet, and with or without a request running.
  abbrev pub at : State → List Bytes → Bool → BlockFetch
  at state result running = record {
    config = config;
    state = state;
    result = result;
    running = running;
    done = closing;
  }

  pub handle-block :
      (b : Bytes) (result : List Bytes) (running : Bool)
      → handle (protocol codec) (at streaming result running) (to_values (block b))
        ≡ ok (at streaming (result ++ b ∷ []) false)
  unfolding recv
  handle-block b result running =
      handle-recv (protocol codec) (at streaming result running) _ _ (block b)
        (from_iter-to_values_blockfetch (block b) tt) refl

  handle-batch_done :
      (result : List Bytes) (running : Bool)
      → handle (protocol codec) (at streaming result running) (to_values batch_done)
        ≡ ok (at idle result false)
  unfolding recv
  handle-batch_done result running =
      handle-recv (protocol codec) (at streaming result running) _ _ batch_done
        (from_iter-to_values_blockfetch batch_done tt) refl

  pub handle-start_batch :
      (result : List Bytes) (running : Bool)
      → handle (protocol codec) (at busy result running) (to_values start_batch)
        ≡ ok (at streaming result running)
  unfolding recv
  handle-start_batch result running =
      handle-recv (protocol codec) (at busy result running) _ _ start_batch
        (from_iter-to_values_blockfetch start_batch tt) refl

  pub handle-no_blocks :
      (result : List Bytes) (running : Bool)
      → handle (protocol codec) (at busy result running) (to_values no_blocks)
        ≡ ok (at idle result false)
  unfolding recv
  handle-no_blocks result running =
      handle-recv (protocol codec) (at busy result running) _ _ no_blocks
        (from_iter-to_values_blockfetch no_blocks tt) refl

  -- Blocks queue up behind those that are there.
  pub handle_all-block_values :
      (b : Bytes) (bs result : List Bytes) (running : Bool)
      → handle_all (protocol codec) (at streaming result running) (block_values (b ∷ bs))
        ≡ ok (at streaming (result ++ b ∷ bs) false)
  handle_all-block_values b [] result running = rw (handle-block b result running)
  handle_all-block_values b (c ∷ bs) result running =
      rw (handle-block b result running)
        (handle_all-block_values c bs (result ++ b ∷ []) false ∙ rw append_assoc)

  pub handle_all-stream_values :
      (bs result : List Bytes) (running : Bool)
      → handle_all (protocol codec) (at streaming result running) (stream_values bs)
        ≡ ok (at idle (result ++ bs) false)
  handle_all-stream_values [] result running = rw (handle-batch_done result running, append-nil)
  handle_all-stream_values (b ∷ bs) result running =
      rw (handle-block b result running)
        (handle_all-stream_values bs (result ++ b ∷ []) false ∙ rw append_assoc)
