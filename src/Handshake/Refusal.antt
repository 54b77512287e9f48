-- ===== src/Handshake/Refusal.antt =====
-- src/protocols/handshake.rs: what a client makes of a refusal that is written as the crate writes it.
use rust_cardano_ouroboros_n.Prelude.{
  ℕ, suc, ◌-◌, ◌<◌, ◌≡◌, refl, sym, ap, ◌∙◌, inl, List, [], ◌∷◌, append-nil, some, arith,
}
use rust_cardano_ouroboros_n.Prelude.Outcome.{err, panic, Error}
use rust_cardano_ouroboros_n.Model.{Bytes}
use rust_cardano_ouroboros_n.Cbor.{Codec, IsCodec, Items}
use rust_cardano_ouroboros_n.Protocol.{Consumed, client, handle, receive_bytes}
use rust_cardano_ouroboros_n.Protocol.Stream.{encode, IsWritable}
use rust_cardano_ouroboros_n.Protocol.Receive.{Hears, receive_bytes-encode_all}
use rust_cardano_ouroboros_n.Protocol.Execute.{execute_send, send_bytes-send}
use rust_cardano_ouroboros_n.Protocol.Duplex.{go_on, execute-turn, turn_receive, after_receive}
use rust_cardano_ouroboros_n.Handshake.{
  Handshake, Negotiation, propose, confirm, propose_versions, refuse, from_iter, agency, send,
  protocol, proposals, negotiate, after_execute,
}
use rust_cardano_ouroboros_n.Handshake.Messages.{from_iter-refuse}
use rust_cardano_ouroboros_n.Handshake.Machine.{ready, Writes, to_bytes-Writes}

handle-unreadable :
    (codec : Codec) (s : Handshake) (values : Items) (e : Error)
    → from_iter values ≡ err e
    → handle (protocol codec) s values ≡ panic
unfolding handle
handle-unreadable codec s values e h = rw h

-- Whoever hears values that are no message panics.
pub receive_bytes-unreadable :
    (codec : Codec) (laws : IsCodec codec) (s : Handshake) (values : Items) (e : Error)
    → Hears (protocol codec) s
    → from_iter values ≡ err e
    → IsWritable codec values
    → receive_bytes (protocol codec) codec s (encode codec values) ≡ Consumed.panicked
receive_bytes-unreadable codec laws s values e hears h w =
    ap (receive_bytes (protocol codec) codec s) (sym (append-nil _ ∙ append-nil _))
    ∙ receive_bytes-encode_all (protocol codec) codec laws (values ∷ []) s [] hears (w, tt)
        (inl refl)
    ∙ rw (handle-unreadable codec s values e h)

module _ (codec : Codec) (laws : IsCodec codec) (s : Handshake) (later sent : List Bytes)
    (fuel : ℕ) where
  negotiate-unreadable :
      (proposal values : Items) (e : Error)
      → s.role ≡ client
      → s.state ≡ propose
      → Writes codec (propose_versions (proposals s.versions s.network_magic)) proposal
      → 1 < fuel
      → from_iter values ≡ err e
      → IsWritable codec values
      → negotiate codec fuel s (ready (encode codec values ∷ later) sent) ≡ Negotiation.panicked
  unfolding negotiate agency send
  negotiate-unreadable proposal values e r st wp lt h w =
      let k = fuel - 2 in
      let enough : fuel ≡ suc (suc k) = omega arith in
      let u : Handshake = record s { state = confirm } in
      let b = encode codec values in
      let hears : Hears (protocol codec) u = (refl, rw r) in
      rw enough (
        ap after_execute (
          execute_send (protocol codec) codec (suc k) s _ (rw st) (rw (st, r)) (
            send_bytes-send (protocol codec) s u
              (propose_versions (proposals s.versions s.network_magic)) _ (rw (st, r)) (rw st)
              (to_bytes-Writes codec _ proposal wp))
          ∙ execute-turn (protocol codec) codec k u [] (b ∷ later) _
          ∙ ap (go_on (protocol codec) codec k u _) (
              turn_receive (protocol codec) codec u [] (some b) hears
              ∙ ap after_receive (receive_bytes-unreadable codec laws u values e hears h w))))

  -- A refusal is written with the tag of an acceptance, so that a client does not end with an error: a
  -- fresh client, whatever its versions and its magic, that has sent its proposal and hears a refusal as
  -- the crate writes it, in one payload, panics. The encoder accepts both messages, and fuel is at least
  -- two turns.
  pub negotiate-refused :
      (proposal refusal : Items)
      → s.role ≡ client
      → s.state ≡ propose
      → Writes codec (propose_versions (proposals s.versions s.network_magic)) proposal
      → Writes codec refuse refusal
      → 1 < fuel
      → negotiate codec fuel s (ready (encode codec refusal ∷ later) sent) ≡ Negotiation.panicked
  negotiate-refused proposal refusal r st wp (written, w) lt =
      let (values, written', unreadable) = from_iter-refuse codec in
      let same : values ≡ refusal = cc (written, written') in
      negotiate-unreadable proposal refusal _ r st wp lt (ap from_iter (sym same) ∙ unreadable) w
