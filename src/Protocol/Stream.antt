-- ===== src/Protocol/Stream.antt =====
-- The bytes of several messages one after the other, and what a first part of them holds.
use rust_cardano_ouroboros_n.Prelude.{
  ◌≡◌, ◌≢◌, ◌⊎◌, inl, inr, refl, sym, ap, ◌∙◌, List, [], ◌∷◌, ◌++◌, append_assoc, All,
}
use rust_cardano_ouroboros_n.Prelude.Outcome.{Outcome, ok, err, panic}
use rust_cardano_ouroboros_n.Model.{Bytes}
use rust_cardano_ouroboros_n.Cbor.{Codec, IsCodec, Items}

-- The bytes of an array of values, if the encoder accepts it.
abbrev bytes_of : Outcome Bytes → Bytes
bytes_of (ok b) = b
bytes_of (err e) = []
bytes_of panic = []

abbrev pub encode : Codec → Items → Bytes
encode codec values = bytes_of (codec.items_to_vec values)

abbrev pub IsWritable : Codec → Items → Type 0
IsWritable codec values = codec.items_to_vec values ≡ ok (encode codec values)

-- No message is written as nothing.
pub encode-ne-nil :
    (codec : Codec) (laws : IsCodec codec) (v : Items) → IsWritable codec v → encode codec v ≢ []
encode-ne-nil codec laws v w e = cc (
  ap (λ b. codec.next (b ++ [])) e,
  laws.next_round_trip v (encode codec v) [] w,
  laws.next_nothing,
)

abbrev pub encode_all : Codec → List Items → Bytes
encode_all codec [] = []
encode_all codec (v ∷ vs) = encode codec v ++ encode_all codec vs

-- Two ways to cut a list: one first part begins with the other.
split-append {ℓ} :
    {A : Type ℓ} (us bs xs ys : List A)
    → us ++ bs ≡ xs ++ ys
    → ((zs : List A) × (xs ≡ us ++ zs) × (bs ≡ zs ++ ys))
      ⊎ ((zs : List A) × (us ≡ xs ++ zs) × (zs ≢ []) × (zs ++ bs ≡ ys))
split-append [] bs xs ys e = inl (xs, refl, e)
split-append (a ∷ us) bs [] ys e = inr (a ∷ us, refl, (λ q. cc), e)
split-append (a ∷ us) bs (x ∷ xs) ys e = elim (split-append us bs xs ys (cc)) [
  | inl (zs, p, q) ↦ inl (zs, cc, q)
  | inr (zs, p, n, q) ↦ inr (zs, cc, n, q)
]

nothing {ℓ} : {A : Type ℓ} (xs ys : List A) → xs ++ ys ≡ [] → xs ≡ []
nothing [] ys e = refl
nothing (x ∷ xs) ys e = cc

-- A part of what the encoder writes for some values that stops before its end, or nothing.
abbrev pub IsPart : Codec → Bytes → Type 0
IsPart codec part =
    (part ≡ []) ⊎ ((v : Items) × (q : Bytes) × (codec.items_to_vec v ≡ ok (part ++ q)) × (q ≢ []))

-- The bytes `b`, which `rest` follows, hold the messages `whole` and a part of the next one.
pub record Cut (codec : Codec) (vs : List Items) (b rest : Bytes) : Type 0 where
  pub whole : List Items
  pub later : List Items
  pub part : Bytes
  pub split : vs ≡ whole ++ later
  pub front : b ≡ encode_all codec whole ++ part
  pub back : part ++ rest ≡ encode_all codec later
  pub proper : IsPart codec part
  pub whole_writable : All (IsWritable codec) whole
  pub later_writable : All (IsWritable codec) later

-- Every first part of a stream of messages is cut in this way.
pub cut :
    (codec : Codec) (vs : List Items) (b rest : Bytes)
    → All (IsWritable codec) vs
    → b ++ rest ≡ encode_all codec vs
    → Cut codec vs b rest
cut codec [] b rest w e = record {
  whole = [];
  later = [];
  part = b;
  split = refl;
  front = refl;
  back = e;
  proper = inl (nothing b rest e);
  whole_writable = tt;
  later_writable = tt;
}
cut codec (v ∷ vs) b rest (wv, ws) e =
    elim (split-append (encode codec v) (encode_all codec vs) b rest (sym e)) [
      | inl (zs, p, q) ↦ behind zs p (cut codec vs zs rest ws (sym q))
      | inr (zs, p, n, q) ↦ record {
        whole = [];
        later = v ∷ vs;
        part = b;
        split = refl;
        front = refl;
        back = e;
        proper = inr (v, zs, wv ∙ ap ok p, n);
        whole_writable = tt;
        later_writable = (wv, ws);
      }
    ]
  where
    behind :
        (zs : Bytes) → b ≡ encode codec v ++ zs → Cut codec vs zs rest → Cut codec (v ∷ vs) b rest
    behind zs p c = record {
      whole = v ∷ c.whole;
      later = c.later;
      part = c.part;
      split = ap (λ l. v ∷ l) c.split;
      front =
          p
          ∙ ap (λ l. encode codec v ++ l) c.front
          ∙ sym (append_assoc (encode codec v) (encode_all codec c.whole) c.part);
      back = c.back;
      proper = c.proper;
      whole_writable = (wv, c.whole_writable);
      later_writable = c.later_writable;
    }
