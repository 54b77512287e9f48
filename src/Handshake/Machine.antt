-- ===== src/Handshake/Machine.antt =====
-- The handshake machine under `execute`: a client's run and a server's run.

use rust_cardano_ouroboros_n.Prelude.{
  ℕ, suc, ◌*◌, ◌+◌, ◌-◌, ◌<◌, ◌≡◌, ◌≢◌, inl, refl, sym, ap, ◌∙◌, arith, List, [], ◌∷◌, ◌++◌, All,
  append-nil, length, concat, last?, some, ==_refl,
}
use rust_cardano_ouroboros_n.Prelude.Int.{IsU32}
use rust_cardano_ouroboros_n.Prelude.Outcome.{ok}
use rust_cardano_ouroboros_n.Model.{Bytes}
use rust_cardano_ouroboros_n.Cbor.{Codec, IsCodec, Items}
use rust_cardano_ouroboros_n.Protocol.{client, server, Channel, execute, finished, Execution}
use rust_cardano_ouroboros_n.Protocol.Stream.{encode, IsWritable}
use rust_cardano_ouroboros_n.Protocol.Execute.{
  execute-pieces, execute_send, execute_wait, execute_done, execute_exchange, handle-recv,
  send_bytes-send,
}
use rust_cardano_ouroboros_n.Protocol.Fuel.{Alternates, execute-ne-stuck}
use rust_cardano_ouroboros_n.Handshake.{
  Handshake, Message, propose, confirm, done, propose_versions, accept_version, from_iter,
  to_values, agency, send, recv, protocol, proposals, find_version, negotiated, outcome_of,
  Negotiation, after_execute, negotiate, stuck,
}
use rust_cardano_ouroboros_n.Handshake.Versions.{Version}
use rust_cardano_ouroboros_n.Handshake.Versions.RoundTrip.{FitsWord}
use rust_cardano_ouroboros_n.Handshake.Messages.{
  accept_items, to_values-accept_version, from_iter-accept_items,
}

abbrev pub ready : List Bytes → List Bytes → Channel
ready inbox outbox = record { bytes = []; inbox = inbox; outbox = outbox }

-- A message is written as these values.
abbrev pub Writes : Codec → Message → Items → Type 0
Writes codec m values = (to_values codec.key_compare m ≡ ok values) × IsWritable codec values

module _ (codec : Codec) (m : Message) (values : Items) (w : Writes codec m values) where
  pub to_bytes-Writes : (protocol codec).to_bytes m ≡ ok (encode codec values)
  to_bytes-Writes = rw (w.0, w.1)

module _ (codec : Codec) (laws : IsCodec codec) (s : Handshake) (pieces later sent : List Bytes)
    (fuel : ℕ) where
  -- A fresh server, the last of whose versions fits 16 bits, reads whatever readable message comes
  -- in, in any pieces that are not empty, answers with the last of its versions, and `negotiate`
  -- returns that version with its magic: what the message proposes does not matter. The encoder
  -- accepts both messages, and fuel is two turns more than pieces.
  pub negotiate_server :
      (values : Items) (m : Message) (v : Version)
      → s.role ≡ server
      → s.state ≡ propose
      → last? s.versions ≡ some v
      → FitsWord v
      → from_iter values ≡ ok m
      → IsWritable codec values
      → IsWritable codec (accept_items v s.network_magic)
      → All (λ piece. piece ≢ []) pieces
      → concat pieces ≡ encode codec values
      → length pieces + 1 < fuel
      → negotiate codec fuel s (ready (pieces ++ later) sent)
        ≡ negotiated
            (ok (v, s.network_magic))
            (record s { state = done; version = some v })
            (ready later (sent ++ encode codec (accept_items v s.network_magic) ∷ []))
  unfolding negotiate agency send recv
  negotiate_server values m v r st l fv e w wa np c lt =
      let k = fuel - (length pieces + 2) in
      let enough : fuel ≡ length pieces + suc (suc k) = omega arith in
      let u : Handshake = record s { state = confirm } in
      rw enough (
        ap after_execute (
          execute-pieces (protocol codec) codec laws pieces [] (values ∷ []) s u (suc (suc k)) later
            sent np (inl refl) (w, tt) (c ∙ sym (append-nil _))
            ((rw st, rw (st, r)), (_, handle-recv (protocol codec) s u values m e (rw st), refl))
          ∙ execute_send (protocol codec) codec (suc k) u _ refl (rw r) (
              send_bytes-send (protocol codec) u (record s { state = done; version = some v })
                (accept_version v s.network_magic) _ (rw r) (rw l)
                (to_bytes-Writes codec (accept_version v s.network_magic) _
                  (to_values-accept_version codec v s.network_magic fv, wa)))
          ∙ execute_done (protocol codec) codec k _ _ refl))

  -- A fresh client whose proposal can be written and whose magic fits 32 bits hears a version
  -- accepted with its own magic, in any pieces that are not empty. It has sent its proposal, and
  -- returns that version if it is one of its own and `Handshake failed` if it is not. The version
  -- fits 16 bits, the encoder accepts the message, and fuel is two turns more than pieces.
  pub negotiate-client :
      (proposal : Items) (v : Version)
      → s.role ≡ client
      → s.state ≡ propose
      → Writes codec (propose_versions (proposals s.versions s.network_magic)) proposal
      → FitsWord v
      → IsU32 s.network_magic
      → IsWritable codec (accept_items v s.network_magic)
      → All (λ piece. piece ≢ []) pieces
      → concat pieces ≡ encode codec (accept_items v s.network_magic)
      → length pieces + 1 < fuel
      → negotiate codec fuel s (ready (pieces ++ later) sent)
        ≡ negotiated
            (outcome_of (find_version v s.versions) s.network_magic)
            (record s { state = done; version = find_version v s.versions })
            (ready later (sent ++ encode codec proposal ∷ []))
  unfolding negotiate agency send recv
  negotiate-client proposal v r st wp fv hm wa np c lt =
      let u : Handshake = record s { state = confirm } in
      let t : Handshake = record s { state = done; version = find_version v s.versions } in
      ap after_execute (
        execute_exchange (protocol codec) codec laws pieces (accept_items v s.network_magic ∷ []) s
          u t _ fuel later sent (rw st) (rw (st, r))
          (send_bytes-send (protocol codec) s u
            (propose_versions (proposals s.versions s.network_magic)) _ (rw (st, r)) (rw st)
            (to_bytes-Writes codec _ proposal wp))
          np (wa, tt) (c ∙ sym (append-nil _))
          (
            (refl, rw r),
            (
              _,
              handle-recv (protocol codec) u t _ (accept_version v s.network_magic)
                  (from_iter-accept_items v s.network_magic fv hm) (rw (==_refl s.network_magic)),
              refl,
            ),
          )
          refl lt)

-- A fresh client that hears nothing has sent its proposal, and waits.
pub negotiate-silent :
    (codec : Codec) (s : Handshake) (sent : List Bytes) (fuel : ℕ) (proposal : Items)
    → s.role ≡ client
    → s.state ≡ propose
    → Writes codec (propose_versions (proposals s.versions s.network_magic)) proposal
    → 1 < fuel
    → negotiate codec fuel s (ready [] sent)
      ≡ Negotiation.waiting
          (record s { state = confirm })
          (ready [] (sent ++ encode codec proposal ∷ []))
          []
unfolding negotiate agency send
negotiate-silent codec s sent fuel proposal r st wp lt =
    let k = fuel - 2 in
    let e : fuel ≡ suc (suc k) = omega arith in
    let u : Handshake = record s { state = confirm } in
    rw e (
      ap after_execute (
        execute_send (protocol codec) codec (suc k) s _ (rw st) (rw (st, r)) (
          send_bytes-send (protocol codec) s u
            (propose_versions (proposals s.versions s.network_magic)) _ (rw (st, r)) (rw st)
            (to_bytes-Writes codec _ proposal wp))
        ∙ execute_wait (protocol codec) codec k u [] _ (refl, rw r)))

-- Whoever sends a handshake message in its turn waits for the other side or is done.
send-Alternates : (codec : Codec) → Alternates (protocol codec)
unfolding agency send
send-Alternates codec s m h₁ h₂ e = ground arith

-- Whatever arrives, `negotiate` ends within two turns for each payload and two turns more: it returns,
-- panics, or waits for a payload that does not come.
pub negotiate-ne-stuck :
    (codec : Codec) (laws : IsCodec codec) (fuel : ℕ) (s : Handshake) (ch : Channel)
    → 2 * length ch.inbox + 1 < fuel
    → negotiate codec fuel s ch ≢ stuck
unfolding negotiate
negotiate-ne-stuck codec laws fuel s ch lt =
    go (execute (protocol codec) codec fuel s ch)
      (execute-ne-stuck (protocol codec) codec laws (send-Alternates codec) fuel s ch lt)
  where
    go : (x : Execution Handshake) → x ≢ Execution.stuck → after_execute x ≢ stuck
    go (finished u c) n = λ e. cc
    go (Execution.waiting u c held) n = λ e. cc
    go Execution.panicked n = λ e. cc
    go Execution.stuck n = absurd (n refl)
