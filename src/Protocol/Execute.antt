-- ===== src/Protocol/Execute.antt =====
-- `execute` turn by turn, and on messages that arrive cut into pieces.
use Prim.Native.Nat.add
use rust_cardano_ouroboros_n.Prelude.{
  subst, ℕ, ◌-◌, ◌<◌, suc, ◌+◌, ◌≡◌, ◌≢◌, inl, inr, refl, sym, ap, ◌∙◌, List, [], ◌∷◌, ◌++◌,
  append_assoc, append-nil, All, true, false, length, concat, arith,
}
use rust_cardano_ouroboros_n.Prelude.Outcome.{ok}
use rust_cardano_ouroboros_n.Model.{Bytes}
use rust_cardano_ouroboros_n.Cbor.{Codec, IsCodec, Items, item}
use rust_cardano_ouroboros_n.Protocol.{
  none, same_agency, Protocol, Channel, finished, waiting, keep, all_read, handle, send_bytes,
  receive_bytes, execute,
}
use rust_cardano_ouroboros_n.Protocol.Stream.{encode, encode_all, IsWritable, IsPart, Cut, cut}
use rust_cardano_ouroboros_n.Protocol.Receive.{
  Hears, handle_all, leave, kept, receive_bytes-encode_all,
}

-- A message that is read and received leads to the state that `recv` leaves.
pub handle-recv :
    {S M : Type 0} (p : Protocol S M) (s u : S) (values : Items) (m : M)
    → p.from_iter values ≡ ok m
    → p.recv s m ≡ (ok tt, u)
    → handle p s values ≡ ok u
unfolding handle
handle-recv p s u values m e r = rw (e, r)

-- With its own agency the protocol sends the bytes of the message that `send` gives.
pub send_bytes-send :
    {S M : Type 0} (p : Protocol S M) (s u : S) (m : M) (b : Bytes)
    → same_agency (p.agency s) (p.role s) ≡ true
    → p.send s ≡ (ok m, u)
    → p.to_bytes m ≡ ok b
    → send_bytes p s ≡ ok (b, u)
unfolding send_bytes
send_bytes-send p s u m b a e w = rw (a, e, w)

module _ {S M : Type 0} (p : Protocol S M) (codec : Codec) where
  pub execute_done :
      (fuel : ℕ) (s : S) (ch : Channel)
      → same_agency (p.agency s) none ≡ true
      → execute p codec (suc fuel) s ch ≡ finished s ch
  unfolding execute
  execute_done fuel s ch h = rw (h, execute)

  pub execute_send :
      (fuel : ℕ) (s : S) (ch : Channel) {b : Bytes} {s' : S}
      → same_agency (p.agency s) none ≡ false
      → same_agency (p.agency s) (p.role s) ≡ true
      → send_bytes p s ≡ ok (b, s')
      → execute p codec (suc fuel) s ch
        ≡ execute p codec fuel s' (record ch { outbox = ch.outbox ++ b ∷ [] })
  unfolding execute
  execute_send fuel s ch h₁ h₂ e = rw (h₁, h₂, e, execute)

  pub execute_wait :
      (fuel : ℕ) (s : S) (held : Bytes) (sent : List Bytes)
      → Hears p s
      → execute p codec (suc fuel) s (record { bytes = held; inbox = []; outbox = sent })
        ≡ waiting s (record { bytes = []; inbox = []; outbox = sent }) held
  unfolding execute
  execute_wait fuel s held sent (h₁, h₂) = rw (h₁, h₂, execute)

  pub execute_receive :
      (fuel : ℕ) (s s' : S) (part held piece : Bytes) (later sent : List Bytes)
      → Hears p s
      → receive_bytes p codec s (held ++ piece) ≡ kept all_read keep s' part
      → execute p codec (suc fuel) s (record { bytes = held; inbox = piece ∷ later; outbox = sent })
        ≡ execute p codec fuel s' (record { bytes = part; inbox = later; outbox = sent })
  unfolding execute
  execute_receive fuel s s' [] held piece later sent (h₁, h₂) e = rw (h₁, h₂, e, execute)
  execute_receive fuel s s' (b ∷ part) held piece later sent (h₁, h₂) e = rw (h₁, h₂, e, execute)

  -- The messages are handled one after the other, each of them while the agency is the other side's.
  abbrev pub Listens : S → List Items → S → Type 0
  Listens s [] t = s ≡ t
  Listens s (v ∷ vs) t = Hears p s × ((u : S) × (handle p s v ≡ ok u) × Listens u vs t)

  Listens-append :
      (s t : S) (vs ws : List Items)
      → Listens s (vs ++ ws) t
      → (u : S) × (handle_all p s vs ≡ ok u) × Listens u ws t
  Listens-append s t [] ws l = (s, refl, l)
  Listens-append s t (v ∷ vs) ws (h, (u, e, l)) =
      let (x, e', l') = Listens-append u t vs ws l in (x, rw e e', l')

  part-ne-item :
      (laws : IsCodec codec) (part : Bytes) {v : Items} {rest : Bytes}
      → IsPart codec part
      → codec.next part ≢ item v rest
  part-ne-item laws [] h e = cc (e, laws.next_nothing)
  part-ne-item laws (b ∷ part) (inl q) e = cc
  part-ne-item laws (b ∷ part) (inr (w, q, x, n)) e =
      cc (e, laws.next_cut w (b ∷ part) q x (λ z. cc) n)

  -- A part of a message is no whole stream of messages, unless both are empty.
  pub nothing_left :
      (laws : IsCodec codec) (part : Bytes) (vs : List Items)
      → IsPart codec part
      → All (IsWritable codec) vs
      → part ≡ encode_all codec vs
      → (part ≡ []) × (vs ≡ [])
  nothing_left laws part [] h w e = (e, refl)
  nothing_left laws part (v ∷ vs) h (wv, ws) e = absurd (
      part-ne-item laws part h
        (ap codec.next e ∙ laws.next_round_trip v (encode codec v) (encode_all codec vs) wv))

  -- A piece that is not empty is a piece of some message.
  some_left :
      (held piece more : Bytes) (vs : List Items)
      → piece ≢ []
      → held ++ (piece ++ more) ≡ encode_all codec vs
      → vs ≢ []
  some_left [] [] more vs n e q = n refl
  some_left [] (b ∷ piece) more [] n e q = cc
  some_left [] (b ∷ piece) more (v ∷ vs) n e q = cc
  some_left (a ∷ held) piece more [] n e q = cc
  some_left (a ∷ held) piece more (v ∷ vs) n e q = cc

  Listens-Hears : (s t : S) (vs : List Items) → vs ≢ [] → Listens s vs t → Hears p s
  Listens-Hears s t [] n l = absurd (n refl)
  Listens-Hears s t (v ∷ vs) n (h, l) = h

  -- One frame: its whole messages are handled, and the part of the next one is kept.
  pub execute_frame :
      (laws : IsCodec codec) (fuel : ℕ) (s t : S) (vs : List Items) (held piece rest : Bytes)
      (later sent : List Bytes) (c : Cut codec vs (held ++ piece) rest)
      → Hears p s
      → handle_all p s c.whole ≡ ok t
      → execute p codec (suc fuel) s (record { bytes = held; inbox = piece ∷ later; outbox = sent })
        ≡ execute p codec fuel t (record { bytes = c.part; inbox = later; outbox = sent })
  execute_frame laws fuel s t vs held piece rest later sent c hears e =
      execute_receive fuel s t c.part held piece later sent hears (
        ap (receive_bytes p codec s) c.front
        ∙ receive_bytes-encode_all p codec laws c.whole s c.part hears c.whole_writable c.proper
        ∙ ap (λ o. leave p o c.part) e)

  -- Messages whose bytes arrive in any pieces that are not empty, while the protocol listens, have the
  -- effect of the messages handled one by one, and every piece is used up.
  pub execute-pieces :
      (laws : IsCodec codec) (pieces : List Bytes) (held : Bytes) (vs : List Items) (s t : S)
      (fuel : ℕ) (later sent : List Bytes)
      → All (λ piece. piece ≢ []) pieces
      → IsPart codec held
      → All (IsWritable codec) vs
      → held ++ concat pieces ≡ encode_all codec vs
      → Listens s vs t
      → execute p codec
          (length pieces + fuel)
          s
          (record { bytes = held; inbox = pieces ++ later; outbox = sent })
        ≡ execute p codec fuel t (record { bytes = []; inbox = later; outbox = sent })
  execute-pieces laws [] held vs s t fuel later sent n h w e l =
      let (e₁, e₂) = nothing_left laws held vs h w (sym (append-nil held) ∙ e) in
      let same : s ≡ t = subst (λ x. Listens s x t) e₂ l in rw (add.zero, e₁, same)
  execute-pieces laws (piece ∷ pieces) held vs s t fuel later sent (n, ns) h w e l =
      let c =
        cut codec vs (held ++ piece) (concat pieces) w
          (append_assoc held piece (concat pieces) ∙ e) in
      let (u, e', l') = Listens-append s t c.whole c.later (subst (λ x. Listens s x t) c.split l) in
      let hears = Listens-Hears s t vs (some_left held piece (concat pieces) vs n e) l in
      rw add.suc (
        execute_frame laws (length pieces + fuel) s u vs held piece (concat pieces)
          (pieces ++ later) sent c hears e'
        ∙ execute-pieces laws pieces c.part c.later u t fuel later sent ns c.proper c.later_writable
            c.back l')

  -- A request and its answer: with its own agency the protocol sends one message, then it listens to
  -- messages that come in any pieces, and at the last of them it is done.
  pub execute_exchange :
      (laws : IsCodec codec) (pieces : List Bytes) (vs : List Items) (s u t : S) (b : Bytes)
      (fuel : ℕ) (later sent : List Bytes)
      → same_agency (p.agency s) none ≡ false
      → same_agency (p.agency s) (p.role s) ≡ true
      → send_bytes p s ≡ ok (b, u)
      → All (λ piece. piece ≢ []) pieces
      → All (IsWritable codec) vs
      → concat pieces ≡ encode_all codec vs
      → Listens u vs t
      → same_agency (p.agency t) none ≡ true
      → length pieces + 1 < fuel
      → execute p codec fuel s (record { bytes = []; inbox = pieces ++ later; outbox = sent })
        ≡ finished t (record { bytes = []; inbox = later; outbox = sent ++ b ∷ [] })
  execute_exchange laws pieces vs s u t b fuel later sent h₁ h₂ e n w c l d lt =
      let k = fuel - (length pieces + 2) in
      let enough : fuel ≡ suc (length pieces + suc k) = omega arith in
      rw enough (
        execute_send (length pieces + suc k) s _ h₁ h₂ e
        ∙ execute-pieces laws pieces [] vs u t (suc k) later (sent ++ b ∷ []) n (inl refl) w c l
        ∙ execute_done k t _ d)
