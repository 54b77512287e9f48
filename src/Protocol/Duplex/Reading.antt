-- ===== src/Protocol/Duplex/Reading.antt =====
-- A machine that reads one message, whose bytes come in parts.
use rust_cardano_ouroboros_n.Prelude.{
  ℕ, zero, suc, ◌<◌, ◌≡◌, ◌≢◌, ◌⊎◌, inl, inr, refl, sym, ap, ◌∙◌, Option, [], ◌∷◌, ◌++◌, append-nil,
  append_assoc, take, drop, take-append-drop, length, length-drop, arith,
}
use rust_cardano_ouroboros_n.Prelude.Outcome.{ok}
use rust_cardano_ouroboros_n.Model.{Bytes}
use rust_cardano_ouroboros_n.Cbor.{Codec, IsCodec, Items}
use rust_cardano_ouroboros_n.Protocol.{Protocol, keep, all_read, handle, receive_bytes}
use rust_cardano_ouroboros_n.Protocol.Stream.{encode, IsWritable}
use rust_cardano_ouroboros_n.Protocol.Receive.{Hears, kept, receive_bytes-encode_all}
use rust_cardano_ouroboros_n.Protocol.Duplex.{
  reads, waits, turn, turn_receive, arrived, after_receive,
}

kept-ne-nil :
    {S A : Type 0} (f : S → A) (g : S → Bytes → A) (s : S) (part : Bytes)
    → part ≢ []
    → kept f g s part ≡ g s part
kept-ne-nil f g s [] n = absurd (n refl)
kept-ne-nil f g s (b ∷ part) n = refl

append-ne-nil : (held : Bytes) (b : ℕ) (rest : Bytes) → held ++ b ∷ rest ≢ []
append-ne-nil [] b rest e = cc
append-ne-nil (a ∷ held) b rest e = cc

module _ {S M : Type 0} (p : Protocol S M) (codec : Codec) (laws : IsCodec codec) (s u : S)
    (v : Items) (hears : Hears p s) (w : IsWritable codec v) (e : handle p s v ≡ ok u) where
  receive_whole : (b : Bytes) → b ≡ encode codec v → receive_bytes p codec s b ≡ all_read u
  receive_whole b c =
      ap (receive_bytes p codec s) (c ∙ sym (append-nil _ ∙ append-nil _))
      ∙ receive_bytes-encode_all p codec laws (v ∷ []) s [] hears (w, tt) (inl refl)
      ∙ rw e

  receive_part :
      (part rest : Bytes)
      → part ++ rest ≡ encode codec v
      → part ≢ []
      → rest ≢ []
      → receive_bytes p codec s part ≡ keep s part
  receive_part part rest c n k =
      receive_bytes-encode_all p codec laws [] s part hears tt (inr (v, rest, w ∙ ap ok (sym c), k))
      ∙ kept-ne-nil all_read keep s part n

  -- What a turn comes to when `held` was kept, `bytes` are on their way, and `n` of them have arrived:
  -- it waits, or it takes the message in, or it keeps the part of it that is there.
  abbrev pub Reads : Bytes → Bytes → ℕ → Type 0
  Reads held bytes n =
      let result = turn p codec s held (arrived (take n bytes)) in
      ((result ≡ waits) × (n ≡ 0))
      ⊎ ((result ≡ reads u []) × (drop n bytes ≡ []))
      ⊎ ((result ≡ reads s (held ++ take n bytes))
          × (drop n bytes ≢ [])
          × ((held ++ take n bytes) ++ drop n bytes ≡ encode codec v)
          × (length (drop n bytes) < length bytes))

  pub turn-Reads :
      (held bytes : Bytes) (n : ℕ)
      → held ++ bytes ≡ encode codec v
      → bytes ≢ []
      → Reads held bytes n
  turn-Reads held [] n c k = absurd (k refl)
  turn-Reads held (b ∷ bytes) zero c k = inl (turn_receive p codec s held Option.none hears, refl)
  turn-Reads held (b ∷ bytes) (suc n) c k = inr (by_rest (drop n bytes) refl)
    where
      piece : Bytes
      piece = b ∷ take n bytes

      joined : (held ++ piece) ++ drop n bytes ≡ encode codec v
      joined =
          append_assoc held piece (drop n bytes)
          ∙ ap (λ l. held ++ b ∷ l) (take-append-drop n bytes)
          ∙ c

      by_rest :
          (rest : Bytes)
          → drop n bytes ≡ rest
          → let result = turn p codec s held (Option.some piece) in
            ((result ≡ reads u []) × (drop n bytes ≡ []))
            ⊎ ((result ≡ reads s (held ++ piece))
                × (drop n bytes ≢ [])
                × ((held ++ piece) ++ drop n bytes ≡ encode codec v)
                × (length (drop n bytes) < suc (length bytes)))
      by_rest [] q = inl (
        turn_receive p codec s held (Option.some piece) hears
            ∙ ap after_receive (
                receive_whole (held ++ piece)
                  (sym (append-nil _) ∙ ap (λ l. (held ++ piece) ++ l) (sym q) ∙ joined)),
        q,
      )
      by_rest (a ∷ rest) q =
          let k' : drop n bytes ≢ [] = λ z. cc in
          inr (
            turn_receive p codec s held (Option.some piece) hears
                ∙ ap after_receive (
                    receive_part (held ++ piece) (drop n bytes) joined
                      (append-ne-nil held b (take n bytes)) k'),
            k',
            joined,
            omega (arith, length-drop n bytes),
          )
