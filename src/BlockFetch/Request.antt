-- ===== src/BlockFetch/Request.antt =====
-- A range of blocks from the request to the end of the batch: `run`, and `next` until it gives `None`.
use rust_cardano_ouroboros_n.Prelude.{
  ℕ, suc, ◌+◌, ◌-◌, ◌<◌, ◌≡◌, ◌≢◌, inl, refl, sym, ap, ◌∙◌, subst, List, [], ◌∷◌, ◌++◌, append-nil,
  All, length, length-append, concat, Bool, true, false, arith,
}
use rust_cardano_ouroboros_n.Model.{Bytes}
use rust_cardano_ouroboros_n.Cbor.{Codec, IsCodec, Items}
use rust_cardano_ouroboros_n.Protocol.{Channel, Execution, finished, execute}
use rust_cardano_ouroboros_n.Protocol.Stream.{encode, encode_all, IsWritable}
use rust_cardano_ouroboros_n.Protocol.Execute.{
  execute_send, execute_exchange, execute_done, send_bytes-send,
}
use rust_cardano_ouroboros_n.BlockFetch.{
  State, idle, busy, streaming, request_range, client_done, start_batch, no_blocks, to_values,
  Config, BlockFetch, agency, send, protocol, drain, all_blocks, run, finish, after_run,
  fetch_range,
}
use rust_cardano_ouroboros_n.BlockFetch.Machine.{at, stream_values, handle-no_blocks}
use rust_cardano_ouroboros_n.BlockFetch.Fetch.{
  Incoming, Fetched, some_blocks, whole_batch, fetch, fetch_announced,
}
use rust_cardano_ouroboros_n.BlockFetch.Session.{drain-idle, drain_streaming}

module _ (codec : Codec) (laws : IsCodec codec) (config : Config) (pieces later sent : List Bytes)
    (rounds fuel : ℕ) (running : Bool) where
  abbrev ready : List Bytes → List Bytes → Channel
  ready inbox outbox = record { bytes = []; inbox = inbox; outbox = outbox }

  abbrev request : Items
  request = to_values (request_range config.first config.last)

  abbrev outbox : List Bytes
  outbox = sent ++ encode codec request ∷ []

  drain-Fetched :
      (bs : List Bytes) (x : Execution BlockFetch)
      → Fetched codec laws config false bs (length pieces) later outbox x
      → length bs < rounds
      → length pieces < fuel
      → after_run (drain codec rounds fuel) x
        ≡ all_blocks bs (at codec config false idle [] false) (ready later outbox)
  drain-Fetched bs x (some_blocks b front back held pieces' e i le q) lt enough =
      ap (after_run (drain codec rounds fuel)) q
      ∙ drain_streaming codec laws config false later outbox (b ∷ front) back held pieces' rounds
          fuel (omega (arith, ap length e, length-append front back)) (omega arith) i
      ∙ ap (λ l. all_blocks l (at codec config false idle [] false) (ready later outbox)) (sym e)
  drain-Fetched bs x (whole_batch q) lt enough =
      ap (after_run (drain codec rounds fuel)) q
      ∙ drain-idle codec laws config false later outbox bs rounds fuel lt

  -- An idle client that holds no blocks asks for its range. If the server announces a batch, sends
  -- the blocks `bs` and ends the batch, its bytes cut into any pieces that are not empty, and the
  -- encoder accepts the request and each of these messages, then the client's loop gets exactly the
  -- blocks `bs` in their order and ends idle, with nothing but the request sent and no more than
  -- these pieces read, at more rounds than blocks and at fuel of two turns more than pieces.
  pub fetch_range_batch :
      (bs : List Bytes)
      → IsWritable codec request
      → All (IsWritable codec) (to_values start_batch ∷ stream_values bs)
      → All (λ piece. piece ≢ []) pieces
      → concat pieces ≡ encode_all codec (to_values start_batch ∷ stream_values bs)
      → length bs < rounds
      → length pieces + 1 < fuel
      → fetch_range codec rounds fuel
          (at codec config false idle [] running)
          (ready (pieces ++ later) sent)
        ≡ all_blocks bs (at codec config false idle [] false) (ready later outbox)
  unfolding fetch_range run agency send
  fetch_range_batch bs wr w np c lt enough =
      let k = fuel - 1 in
      let e : fuel ≡ suc k = omega arith in
      drain-Fetched bs _
        (subst (Fetched codec laws config false bs (length pieces) later outbox)
          (sym (
            ap
              (λ n.
                execute (protocol codec) codec n (at codec config false idle [] true)
                  (ready (pieces ++ later) sent))
              e
            ∙ execute_send (protocol codec) codec k (at codec config false idle [] true) _ refl refl
                (send_bytes-send (protocol codec) _ _ (request_range config.first config.last) _
                  refl refl (rw wr))))
          (fetch_announced codec laws config false pieces [] bs k later outbox
            (record { part = inl refl; full = np; writable = w; bytes = c }) (omega arith)))
        lt (omega arith)

  -- If the server has no blocks instead, and says so in any pieces that are not empty, then the loop
  -- gets no blocks and the client is idle again, with nothing but the request sent, where the
  -- encoder accepts both messages, at one round and at fuel of two turns more than pieces.
  pub fetch_range_no_blocks :
      IsWritable codec request
      → IsWritable codec (to_values no_blocks)
      → All (λ piece. piece ≢ []) pieces
      → concat pieces ≡ encode codec (to_values no_blocks)
      → 0 < rounds
      → length pieces + 1 < fuel
      → fetch_range codec rounds fuel
          (at codec config false idle [] running)
          (ready (pieces ++ later) sent)
        ≡ all_blocks [] (at codec config false idle [] false) (ready later outbox)
  unfolding fetch_range run agency send
  fetch_range_no_blocks wr w np c lt enough =
      ap (after_run (drain codec rounds fuel)) (
        execute_exchange (protocol codec) codec laws pieces (to_values no_blocks ∷ [])
          (at codec config false idle [] true) (at codec config false busy [] true)
          (at codec config false idle [] false) _ fuel later sent refl refl
          (send_bytes-send (protocol codec) _ _ (request_range config.first config.last) _ refl refl
            (rw wr))
          np (w, tt) (c ∙ sym (append-nil _))
          ((refl, refl), (_, handle-no_blocks codec config false [] true, refl)) refl enough)
      ∙ drain-idle codec laws config false later outbox [] rounds fuel lt

module _ (codec : Codec) (config : Config) (result sent : List Bytes) (running closing : Bool) where
  -- `done` of an idle client sends `ClientDone`, if the encoder accepts it, and nothing else, reads
  -- nothing, and leaves the client done, at fuel of two turns.
  pub finish-idle :
      (held : Bytes) (inbox : List Bytes) (fuel : ℕ)
      → IsWritable codec (to_values client_done)
      → 1 < fuel
      → finish codec fuel
          (at codec config closing idle result running)
          (record { bytes = held; inbox = inbox; outbox = sent })
        ≡ finished (at codec config true State.done result true) (record {
          bytes = held;
          inbox = inbox;
          outbox = sent ++ encode codec (to_values client_done) ∷ [];
        })
  unfolding finish agency send
  finish-idle held inbox fuel w lt =
      let k = fuel - 2 in
      let e : fuel ≡ suc (suc k) = omega arith in
      rw e (
        execute_send (protocol codec) codec (suc k) (at codec config true idle result true) _ refl
          refl (send_bytes-send (protocol codec) _ _ client_done _ refl refl (rw w))
        ∙ execute_done (protocol codec) codec k _ _ refl)

-- An execution that came to its end with these messages sent.
abbrev pub FinishedWith : List Bytes → Execution BlockFetch → Type 0
FinishedWith sent x =
    (s : BlockFetch) × (held : Bytes) × (inbox : List Bytes) × (x
      ≡ finished s (record { bytes = held; inbox = inbox; outbox = sent }))

-- `done` of a client that is streaming and holds no blocks returns without `ClientDone`: while a batch
-- comes in, in pieces that are not empty, it comes to its end and sends nothing, at fuel of one turn more
-- than pieces.
pub finish_streaming :
    (codec : Codec) (laws : IsCodec codec) (config : Config) (running closing : Bool)
    (bs pieces later sent : List Bytes) (held : Bytes) (fuel : ℕ)
    → Incoming codec held pieces (stream_values bs)
    → length pieces < fuel
    → FinishedWith sent (
        finish codec fuel
          (at codec config closing streaming [] running)
          (record { bytes = held; inbox = pieces ++ later; outbox = sent }))
unfolding finish
finish_streaming codec laws config running closing bs pieces later sent held fuel i lt =
    elim (fetch codec laws config true pieces held bs fuel later sent i lt) [
      | some_blocks b front back held' pieces' e j le q ↦ (_, _, _, q)
      | whole_batch q ↦ (_, _, _, q)
    ]
