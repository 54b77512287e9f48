-- ===== src/ChainSync/Session.antt =====
-- Whole queries of the chain-sync client: what `find_intersect` and `request_next` return.
use rust_cardano_ouroboros_n.Prelude.{
  ℕ, ◌+◌, ◌<◌, ◌≡◌, ◌≢◌, refl, sym, append-nil, ap, ◌∙◌, List, [], ◌∷◌, ◌++◌, All, length, concat,
  none, some, map,
}
use rust_cardano_ouroboros_n.Model.{Bytes, Point}
use rust_cardano_ouroboros_n.Cbor.{Codec, IsCodec}
use rust_cardano_ouroboros_n.Protocol.{Channel}
use rust_cardano_ouroboros_n.Protocol.Stream.{encode, encode_all, IsWritable}
use rust_cardano_ouroboros_n.Protocol.Execute.{execute_exchange, send_bytes-send}
use rust_cardano_ouroboros_n.ChainSync.{
  ChainSync, idle, intersecting, can_await, Message, request_next, find_intersect, to_values,
  Intersect, Reply, for_intersect, for_reply, agency, send, protocol, answered, panicked,
  ask_intersect, ask_next, after_execute, take_reply, take_intersect,
}
use rust_cardano_ouroboros_n.ChainSync.Messages.{IsMessage}
use rust_cardano_ouroboros_n.ChainSync.Machine.{
  intersect_message, awaits, Answers, Listens-awaits, Listens-intersect,
}

-- An idle client, and the channel of a client that has read all that came so far.
abbrev pub IsIdle : ChainSync → Type 0
IsIdle s = s.state ≡ idle

abbrev pub ready : List Bytes → List Bytes → Channel
ready inbox outbox = record { bytes = []; inbox = inbox; outbox = outbox }

module _ (codec : Codec) (laws : IsCodec codec) (blake2b : Bytes → Bytes) (s : ChainSync)
    (pieces later sent : List Bytes) (fuel : ℕ) where
  -- An idle client that asks for the next block sends `RequestNext`. If the server's answer, behind
  -- any number of `AwaitReply`s, comes in any pieces that are not empty, is in the range of its
  -- types, holds a header that can be unwrapped if it rolls forward, and the encoder accepts all
  -- these messages, then `request_next` returns that answer, and leaves the client idle and with no
  -- query, at fuel of two turns more than pieces.
  pub ask_next_answered :
      (n : ℕ) (m : Message) (r : Reply)
      → IsIdle s
      → Answers codec blake2b m r
      → IsMessage m
      → IsWritable codec (to_values request_next)
      → All (IsWritable codec) (map to_values (awaits n ++ m ∷ []))
      → All (λ piece. piece ≢ []) pieces
      → concat pieces ≡ encode_all codec (map to_values (awaits n ++ m ∷ []))
      → length pieces + 1 < fuel
      → ask_next codec blake2b fuel s (ready (pieces ++ later) sent)
        ≡ answered r
            (record s { query = none; reply = none; state = idle })
            (ready later (sent ++ encode codec (to_values request_next) ∷ []))
  unfolding ask_next agency send
  ask_next_answered n m r i a h wr w np c lt =
      ap (after_execute λ s' ch'. take_reply s'.reply s' ch') (
        execute_exchange (protocol codec blake2b) codec laws pieces
          (map to_values (awaits n ++ m ∷ [])) (record s { query = some for_reply })
          (record s { query = some for_reply; state = can_await }) _ _ fuel later sent (rw i) (rw i)
          (send_bytes-send (protocol codec blake2b) _ _ request_next _ (rw i) (rw i) (rw wr)) np w c
          (Listens-awaits codec blake2b n _ h a refl) refl lt)

  -- An idle client that looks for an intersection sends `FindIntersect` with its points. If the
  -- server's answer comes in any pieces that are not empty, is in the range of its types, and the
  -- encoder accepts both messages, then `find_intersect` returns that answer, and leaves the client
  -- idle and with no query, at fuel of two turns more than pieces.
  pub ask_intersect_answered :
      (points : List Point) (answer : Intersect)
      → IsIdle s
      → IsMessage (intersect_message answer)
      → IsWritable codec (to_values (find_intersect points))
      → IsWritable codec (to_values (intersect_message answer))
      → All (λ piece. piece ≢ []) pieces
      → concat pieces ≡ encode codec (to_values (intersect_message answer))
      → length pieces + 1 < fuel
      → ask_intersect codec blake2b fuel points s (ready (pieces ++ later) sent)
        ≡ answered answer
            (record s { query = none; intersect = none; state = idle })
            (ready later (sent ++ encode codec (to_values (find_intersect points)) ∷ []))
  unfolding ask_intersect agency send
  ask_intersect_answered points answer i h wf w np c lt =
      ap (after_execute λ s' ch'. take_intersect s'.intersect s' ch') (
        execute_exchange (protocol codec blake2b) codec laws pieces
          (to_values (intersect_message answer) ∷ [])
          (record s { query = some (for_intersect points) })
          (record s { query = some (for_intersect points); state = intersecting }) _ _ fuel later
          sent (rw i) (rw i)
          (send_bytes-send (protocol codec blake2b) _ _ (find_intersect points) _ (rw i) (rw i)
            (rw wf))
          np (w, tt) (c ∙ sym (append-nil _)) (Listens-intersect codec blake2b _ answer h refl) refl
          lt)

  -- `recv` does not look at the state: if the server answers `FindIntersect` with a block that can
  -- be unwrapped or with a rollback, in any pieces that are not empty, then an idle client that
  -- holds no earlier intersection panics in `find_intersect`, where the encoder accepts both
  -- messages, the answer is in the range of its types, and fuel is two turns more than pieces.
  pub ask_intersect_wrong_answer :
      (points : List Point) (m : Message) (r : Reply)
      → IsIdle s
      → s.intersect ≡ none
      → Answers codec blake2b m r
      → IsMessage m
      → IsWritable codec (to_values (find_intersect points))
      → IsWritable codec (to_values m)
      → All (λ piece. piece ≢ []) pieces
      → concat pieces ≡ encode codec (to_values m)
      → length pieces + 1 < fuel
      → ask_intersect codec blake2b fuel points s (ready (pieces ++ later) sent) ≡ panicked
  unfolding ask_intersect agency send
  ask_intersect_wrong_answer points m r i none_yet a h wf w np c lt =
      ap (after_execute λ s' ch'. take_intersect s'.intersect s' ch') (
        execute_exchange (protocol codec blake2b) codec laws pieces (to_values m ∷ [])
          (record s { query = some (for_intersect points) })
          (record s { query = some (for_intersect points); state = intersecting }) _ _ fuel later
          sent (rw i) (rw i)
          (send_bytes-send (protocol codec blake2b) _ _ (find_intersect points) _ (rw i) (rw i)
            (rw wf))
          np (w, tt) (c ∙ sym (append-nil _)) (Listens-awaits codec blake2b 0 _ h a refl) refl lt)
      ∙ ap
          (λ held.
            take_intersect held (record s { query = none; reply = some r; state = idle })
              (ready later (sent ++ encode codec (to_values (find_intersect points)) ∷ [])))
          none_yet
