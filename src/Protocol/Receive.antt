-- ===== src/Protocol/Receive.antt =====
-- `receive_bytes` on the bytes of whole messages and of a part of the next one.
use rust_cardano_ouroboros_n.Prelude.{
  ℕ, zero, suc, ◌<◌, ◌≡◌, inl, inr, refl, ap, ◌∙◌, List, [], ◌∷◌, ◌++◌, append_assoc, All, arith,
  false, length,
}
use rust_cardano_ouroboros_n.Prelude.Outcome
use rust_cardano_ouroboros_n.Prelude.Outcome.{Outcome, ok, err, panic}
use rust_cardano_ouroboros_n.Model.{Bytes}
use rust_cardano_ouroboros_n.Cbor.{Codec, IsCodec, Items, item}
use rust_cardano_ouroboros_n.Protocol.{
  none, same_agency, Protocol, Consumed, keep, all_read, panicked, handle, receive_loop,
  receive_bytes,
}
use rust_cardano_ouroboros_n.Protocol.Stream.{encode, encode_all, IsWritable, IsPart}

-- What is left behind the whole messages is kept, if it is anything.
abbrev pub kept {ℓ} : {S : Type 0} {A : Type ℓ} → (S → A) → (S → Bytes → A) → S → Bytes → A
kept nothing some_bytes s [] = nothing s
kept nothing some_bytes s (b ∷ rest) = some_bytes s (b ∷ rest)

module _ {S M : Type 0} (p : Protocol S M) where
  -- The messages one after the other: `from_iter` and `recv` on each.
  abbrev pub handle_all : S → List Items → Outcome S
  handle_all s [] = ok s
  handle_all s (v ∷ vs) = Outcome.◌>>=◌ (handle p s v) λ s'. handle_all s' vs

  abbrev pub leave : Outcome S → Bytes → Consumed S
  leave (ok s) part = kept all_read keep s part
  leave (err e) part = panicked
  leave panic part = panicked

  -- The agency is the other side's.
  abbrev pub Hears : S → Type 0
  Hears s = (same_agency (p.agency s) none ≡ false) × (same_agency (p.agency s) (p.role s) ≡ false)

  module _ (codec : Codec) (laws : IsCodec codec) where
    receive_part :
        (fuel : ℕ) (s : S) (part : Bytes)
        → IsPart codec part
        → receive_loop p codec (suc fuel) s part ≡ kept all_read keep s part
    unfolding receive_loop
    receive_part fuel s [] h = rw (laws.next_nothing, receive_loop)
    receive_part fuel s (b ∷ part) (inl e) = cc
    receive_part fuel s (b ∷ part) (inr (v, q, w, n)) =
        rw (laws.next_cut v (b ∷ part) q w (λ e. cc) n, receive_loop)

    -- One round on an item.
    after_item : ℕ → Bytes → Outcome S → Consumed S
    after_item fuel rest (ok s') = receive_loop p codec fuel s' rest
    after_item fuel rest (err e) = panicked
    after_item fuel rest panic = panicked

    receive_item :
        (fuel : ℕ) (s : S) (d : Bytes) {v : Items} {rest : Bytes}
        → codec.next d ≡ item v rest
        → receive_loop p codec (suc fuel) s d ≡ after_item fuel rest (handle p s v)
    unfolding receive_loop after_item
    receive_item fuel s d {v} {rest} e = rw (e, receive_loop) (go (handle p s v))
      where
        go :
            (o : Outcome S)
            → elim o [
              | ok s' ↦ receive_loop p codec fuel s' rest
              | err e ↦ panicked
              | panic ↦ panicked
            ]
              ≡ after_item fuel rest o
        go (ok s') = refl
        go (err e) = refl
        go panic = refl

    receive_loop-encode_all :
        (vs : List Items) (fuel : ℕ) (s : S) (part : Bytes)
        → All (IsWritable codec) vs
        → IsPart codec part
        → length (encode_all codec vs ++ part) < fuel
        → receive_loop p codec fuel s (encode_all codec vs ++ part) ≡ leave (handle_all s vs) part
    unfolding after_item
    receive_loop-encode_all vs zero s part w h lt = absurd (omega arith)
    receive_loop-encode_all [] (suc fuel) s part w h lt = receive_part fuel s part h
    receive_loop-encode_all (v ∷ vs) (suc fuel) s part (wv, ws) h lt =
        receive_item fuel s _ found
        ∙ go (handle p s v) λ s'.
          receive_loop-encode_all vs fuel s' part ws h
            (omega (arith, laws.next_shorter _ v behind found))
      where
        behind : Bytes
        behind = encode_all codec vs ++ part

        found : codec.next (encode_all codec (v ∷ vs) ++ part) ≡ item v behind
        found =
            ap codec.next (append_assoc (encode codec v) (encode_all codec vs) part)
            ∙ laws.next_round_trip v (encode codec v) behind wv

        go :
            (o : Outcome S)
            → ((s' : S) → receive_loop p codec fuel s' behind ≡ leave (handle_all s' vs) part)
            → after_item fuel behind o ≡ leave (Outcome.◌>>=◌ o λ s'. handle_all s' vs) part
        go (ok s') ih = ih s'
        go (err e) ih = refl
        go panic ih = refl

    -- While the agency is the other side's, bytes that hold whole messages and a part of the next one
    -- have every whole message handled in order, and exactly the part is kept for the next frame; a
    -- message that cannot be handled ends in a panic.
    pub receive_bytes-encode_all :
        (vs : List Items) (s : S) (part : Bytes)
        → Hears s
        → All (IsWritable codec) vs
        → IsPart codec part
        → receive_bytes p codec s (encode_all codec vs ++ part) ≡ leave (handle_all s vs) part
    unfolding receive_bytes
    receive_bytes-encode_all vs s part (h₁, h₂) w h =
        rw (h₁, h₂) (receive_loop-encode_all vs _ s part w h (omega arith))
