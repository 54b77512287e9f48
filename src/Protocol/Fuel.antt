-- ===== src/Protocol/Fuel.antt =====
-- Enough fuel for `execute`.
use rust_cardano_ouroboros_n.Prelude.{
  ℕ, zero, suc, ◌+◌, ◌*◌, ◌<◌, ◌≤◌, ◌≡◌, ◌≢◌, ◌⊎◌, inl, inr, refl, List, [], ◌∷◌, ◌++◌, arith, true,
  false, length, Bool-cases, if◌then◌else◌,
}
use rust_cardano_ouroboros_n.Prelude.Outcome.{Outcome, ok, err, panic}
use rust_cardano_ouroboros_n.Model.{Bytes}
use rust_cardano_ouroboros_n.Cbor.{Codec, IsCodec, Items, Next, no_more, item, eof, broken}
use rust_cardano_ouroboros_n.Protocol.{
  none, same_agency, Protocol, Channel, Consumed, Execution, keep, all_read, handle, send_bytes,
  receive_bytes, receive_loop, execute, is_empty,
}

module _ {S M : Type 0} (p : Protocol S M) where
  -- Whoever sends a message in its turn then has to wait for an answer, or is done.
  abbrev pub Alternates : Type 0
  Alternates =
      (s : S) (m : M)
      → same_agency (p.agency s) none ≡ false
      → same_agency (p.agency s) (p.role s) ≡ true
      → (p.send s).0 ≡ ok m
      → same_agency (p.agency (p.send s).1) (p.role (p.send s).1) ≡ false

  handle-cases : (s : S) (v : Items) → ((u : S) × (handle p s v ≡ ok u)) ⊎ (handle p s v ≡ panic)
  unfolding handle
  handle-cases s v = ground arith

  module _ (codec : Codec) (laws : IsCodec codec) where
    receive_loop-ne-stuck :
        (fuel : ℕ) (s : S) (d : Bytes)
        → length d < fuel
        → receive_loop p codec fuel s d ≢ Consumed.stuck
    unfolding receive_loop
    receive_loop-ne-stuck zero s d h = absurd (omega arith)
    receive_loop-ne-stuck (suc fuel) s d h =
        go (codec.next d) refl λ rest shorter u. receive_loop-ne-stuck fuel u rest (omega arith)
      where
        go :
            (n : Next)
            → codec.next d ≡ n
            → ((rest : Bytes)
                → length rest < length d
                → (u : S) → receive_loop p codec fuel u rest ≢ Consumed.stuck)
            → receive_loop p codec (suc fuel) s d ≢ Consumed.stuck
        go no_more e ih =
            rw (e, receive_loop)
              (elim (Bool-cases (is_empty d)) [ inl q ↦ rw q (λ x. cc) | inr q ↦ rw q (λ x. cc) ])
        go (item v rest) e ih = elim (handle-cases s v) [
          | inl (u, q) ↦ rw (e, q, receive_loop) (ih rest (laws.next_shorter d v rest e) u)
          | inr q ↦ rw (e, q, receive_loop) (λ x. cc)
        ]
        go eof e ih = rw (e, receive_loop) (λ x. cc)
        go broken e ih = rw (e, receive_loop) (λ x. cc)

    -- `receive_bytes` ends on every input: its loop takes a byte at least in every round.
    pub receive_bytes-ne-stuck : (s : S) (d : Bytes) → receive_bytes p codec s d ≢ Consumed.stuck
    unfolding receive_bytes
    receive_bytes-ne-stuck s d =
        ground (arith, receive_loop-ne-stuck (suc (length d)) s d (omega arith))

    -- One turn more while the protocol has the agency itself.
    abbrev own_turn : S → ℕ
    own_turn s = if same_agency (p.agency s) (p.role s) then 1 else 0

    send_bytes_turn :
        Alternates
        → (s s' : S) (b : Bytes) → same_agency (p.agency s) none ≡ false
        → same_agency (p.agency s) (p.role s) ≡ true
        → send_bytes p s ≡ ok (b, s')
        → own_turn s' ≡ 0
    unfolding send_bytes
    send_bytes_turn alt s s' b h₁ h₂ e = grind (arith, alt)

    abbrev Enough : ℕ → Type 0
    Enough fuel =
        (u : S) (ch : Channel)
        → 2 * length ch.inbox + own_turn u < fuel
        → execute p codec fuel u ch ≢ Execution.stuck

    sending-ne-stuck :
        Alternates
        → (fuel : ℕ) (s : S) (ch : Channel) → Enough fuel
        → same_agency (p.agency s) none ≡ false
        → same_agency (p.agency s) (p.role s) ≡ true
        → 2 * length ch.inbox + 1 < suc fuel
        → execute p codec (suc fuel) s ch ≢ Execution.stuck
    unfolding execute
    sending-ne-stuck alt fuel s ch ih h₁ h₂ lt = go (send_bytes p s) refl
      where
        go :
            (o : Outcome (Bytes × S))
            → send_bytes p s ≡ o
            → execute p codec (suc fuel) s ch ≢ Execution.stuck
        go (ok (b, u)) e =
            rw (h₁, h₂, e, execute)
              (ih u (record ch { outbox = ch.outbox ++ b ∷ [] })
                (omega (arith, send_bytes_turn alt s u b h₁ h₂ e)))
        go (err x) e = rw (h₁, h₂, e, execute) (λ q. cc)
        go panic e = rw (h₁, h₂, e, execute) (λ q. cc)

    own_turn-le : (u : S) → own_turn u ≤ 1
    own_turn-le u = ground arith

    receiving-ne-stuck :
        (fuel : ℕ) (s : S) (held : Bytes) (inbox sent : List Bytes)
        → Enough fuel
        → same_agency (p.agency s) none ≡ false
        → same_agency (p.agency s) (p.role s) ≡ false
        → 2 * length inbox < suc fuel
        → execute p codec (suc fuel) s (record { bytes = held; inbox = inbox; outbox = sent })
          ≢ Execution.stuck
    unfolding execute
    receiving-ne-stuck fuel s held [] sent ih h₁ h₂ lt = rw (h₁, h₂, execute) (λ q. cc)
    receiving-ne-stuck fuel s held (piece ∷ later) sent ih h₁ h₂ lt =
        go (receive_bytes p codec s (held ++ piece)) refl
      where
        go :
            (o : Consumed S)
            → receive_bytes p codec s (held ++ piece) ≡ o
            → execute p codec
                (suc fuel)
                s
                (record { bytes = held; inbox = piece ∷ later; outbox = sent })
              ≢ Execution.stuck
        go (keep u rest) e = rw (h₁, h₂, e, execute) (ih u _ (omega (arith, own_turn-le u)))
        go (all_read u) e = rw (h₁, h₂, e, execute) (ih u _ (omega (arith, own_turn-le u)))
        go Consumed.panicked e = rw (h₁, h₂, e, execute) (λ q. cc)
        go Consumed.stuck e = absurd (receive_bytes-ne-stuck s (held ++ piece) e)

    execute-ne-stuck_turns : Alternates → (fuel : ℕ) → Enough fuel
    unfolding execute
    execute-ne-stuck_turns alt zero s ch lt = absurd (omega arith)
    execute-ne-stuck_turns alt (suc fuel) s ch lt =
        elim (Bool-cases (same_agency (p.agency s) none)) [
          | inl h ↦ rw (h, execute) (λ q. cc)
          | inr h₁ ↦ elim (Bool-cases (same_agency (p.agency s) (p.role s))) [
            | inl h₂ ↦
                sending-ne-stuck alt fuel s ch (execute-ne-stuck_turns alt fuel) h₁ h₂
                  (let e : own_turn s ≡ 1 = rw h₂ in omega arith)
            | inr h₂ ↦
                receiving-ne-stuck fuel s ch.bytes ch.inbox ch.outbox
                  (execute-ne-stuck_turns alt fuel) h₁ h₂ (omega arith)
          ]
        ]

    -- If a protocol never sends twice in a row, `execute` returns, waits or panics within two turns for
    -- each payload that arrives and two turns more.
    pub execute-ne-stuck :
        Alternates
        → (fuel : ℕ) (s : S) (ch : Channel) → 2 * length ch.inbox + 1 < fuel
        → execute p codec fuel s ch ≢ Execution.stuck
    execute-ne-stuck alt fuel s ch lt =
        execute-ne-stuck_turns alt fuel s ch (omega (arith, own_turn-le s))
