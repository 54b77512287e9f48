-- ===== src/ChainSync/Machine.antt =====
-- The chain-sync state machine under `execute`.
use rust_cardano_ouroboros_n.Prelude.{
  ℕ, zero, suc, ◌≡◌, refl, List, [], ◌∷◌, ◌++◌, arith, none, some, map,
}
use rust_cardano_ouroboros_n.Prelude.Outcome.{ok}
use rust_cardano_ouroboros_n.Model.{Bytes, Point, Tip, BlockHeader}
use rust_cardano_ouroboros_n.Cbor.{Codec}
use rust_cardano_ouroboros_n.Header.{WrappedBlockHeader, header_of_wrapped}
use rust_cardano_ouroboros_n.Protocol.{server}
use rust_cardano_ouroboros_n.Protocol.Execute.{Listens, handle-recv}
use rust_cardano_ouroboros_n.Protocol.Fuel.{Alternates}
use rust_cardano_ouroboros_n.ChainSync.{
  ChainSync, idle, must_reply, Message, await_reply, roll_forward, roll_backward, intersect_found,
  intersect_not_found, to_values, Intersect, found, not_found, Reply, forward, backward, agency,
  send, recv, protocol,
}
use rust_cardano_ouroboros_n.ChainSync.Messages.{IsMessage, from_iter-to_values_chainsync}

module _ (codec : Codec) (blake2b : Bytes → Bytes) where
  -- Whoever has sent a chain-sync message waits for the server.
  pub send-Alternates : Alternates (protocol codec blake2b)
  unfolding agency send
  send-Alternates s m h₁ h₂ e = ground arith

-- What the server may answer to `FindIntersect`, and what the client makes of it.
abbrev pub intersect_message : Intersect → Message
intersect_message (found point tip) = intersect_found point tip
intersect_message (not_found tip) = intersect_not_found tip

abbrev pub awaits : ℕ → List Message
awaits zero = []
awaits (suc n) = await_reply ∷ awaits n

-- What the server may answer to `RequestNext`.
pub data Answers (codec : Codec) (blake2b : Bytes → Bytes) : Message → Reply → Type 0 where
  rolled_forward :
      {w : WrappedBlockHeader} {h : BlockHeader} {tip : Tip}
      → header_of_wrapped codec blake2b w ≡ ok h
      → Answers codec blake2b (roll_forward w tip) (forward h tip)
  rolled_backward :
      {point : Point} {tip : Tip}
      → Answers codec blake2b (roll_backward point tip) (backward point tip)

module _ (codec : Codec) (blake2b : Bytes → Bytes) where
  recv-Answers :
      (s : ChainSync) {m : Message} {r : Reply}
      → Answers codec blake2b m r
      → recv codec blake2b s m ≡ (ok tt, record s { reply = some r; query = none; state = idle })
  unfolding recv
  recv-Answers s (rolled_forward e) = rw e
  recv-Answers s rolled_backward = refl

  recv-intersect_message :
      (s : ChainSync) (i : Intersect)
      → recv codec blake2b s (intersect_message i)
        ≡ (ok tt, record s { intersect = some i; query = none; state = idle })
  unfolding recv
  recv-intersect_message s (found point tip) = refl
  recv-intersect_message s (not_found tip) = refl

  pub Listens-intersect :
      (u : ChainSync) (i : Intersect)
      → IsMessage (intersect_message i)
      → agency u ≡ server
      → Listens
          (protocol codec blake2b)
          codec
          u
          (to_values (intersect_message i) ∷ [])
          (record u { intersect = some i; query = none; state = idle })
  Listens-intersect u i h hears = (
    (rw hears, rw hears),
    (
      _,
      handle-recv (protocol codec blake2b) u _ _ (intersect_message i)
          (from_iter-to_values_chainsync (intersect_message i) h) (recv-intersect_message u i),
      refl,
    ),
  )

  must_reply_hears :
      (u : ChainSync) → agency u ≡ server → agency (record u { state = must_reply }) ≡ server
  unfolding agency
  must_reply_hears u h = ground arith

  pub Listens-awaits :
      (n : ℕ) (u : ChainSync) {m : Message} {r : Reply}
      → IsMessage m
      → Answers codec blake2b m r
      → agency u ≡ server
      → Listens
          (protocol codec blake2b)
          codec
          u
          (map to_values (awaits n ++ m ∷ []))
          (record u { reply = some r; query = none; state = idle })
  unfolding recv
  Listens-awaits zero u {m} h a hears = (
    (rw hears, rw hears),
    (
      _,
      handle-recv (protocol codec blake2b) u _ _ m (from_iter-to_values_chainsync m h)
          (recv-Answers u a),
      refl,
    ),
  )
  Listens-awaits (suc n) u h a hears = (
    (rw hears, rw hears),
    (
      _,
      handle-recv (protocol codec blake2b) u _ _ await_reply
          (from_iter-to_values_chainsync await_reply tt) refl,
      Listens-awaits n (record u { state = must_reply }) h a (must_reply_hears u hears),
    ),
  )
