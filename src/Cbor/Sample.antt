-- ===== src/Cbor/Sample.antt =====
-- A codec that has the laws of the CBOR library, for concrete runs. It is not CBOR: a value is written
-- as the steps of a stack machine that builds it, and an array has the number of its steps in front.
use Prim.Native.Nat.{compare, Ordering}
use package.text.Mathlib.Text
use package.text.Mathlib.TextEquality.{eq_iff}
use rust_cardano_ouroboros_n.Prelude.{
  ℕ, ◌<◌, ◌≡◌, ◌≢◌, refl, sym, ap, ◌∙◌, List, [], ◌∷◌, ◌++◌, length, take, drop, Bool, true, false,
  ◌&&◌, if◌then◌else◌, ltb, ◌==◌, Bool-cases, inl, inr, length-append, length-drop, lt→ltb,
  take-append, drop-append, arith,
}
use rust_cardano_ouroboros_n.Prelude.Int.{pos, negsuc}
use rust_cardano_ouroboros_n.Prelude.Outcome.{Outcome, ok, err, panic, cbor_error, ◌>>=◌}
use rust_cardano_ouroboros_n.Model.{Bytes}
use rust_cardano_ouroboros_n.Cbor.{
  Value, Items, Entries, nil, ◌▸◌, no_entries, entry, integer, bool, bytes, text, array, map, other,
  Next, no_more, item, eof, broken, Codec, IsCodec,
}

-- Values without text, but for the text of a refusal.
abbrev mutual
  plain : Value → Bool
  plain (text s) = Text.◌==◌ s "Refused."
  plain (array vs) = plain_items vs
  plain (map es) = plain_entries es
  plain _ = true

  plain_items : Items → Bool
  plain_items nil = true
  plain_items (v ▸ vs) = plain v && plain_items vs

  plain_entries : Entries → Bool
  plain_entries no_entries = true
  plain_entries (entry k v es) = plain k && (plain v && plain_entries es)

-- A step is a number and an operand.
abbrev pub write_bytes : Bytes → Bytes → Bytes
write_bytes [] rest = 4 ∷ 0 ∷ rest
write_bytes (b ∷ bs) rest = write_bytes bs (5 ∷ b ∷ rest)

abbrev mutual
  pub write : Value → Bytes → Bytes
  write (integer (pos n)) rest = 0 ∷ n ∷ rest
  write (integer (negsuc n)) rest = 1 ∷ n ∷ rest
  write (bool false) rest = 2 ∷ 0 ∷ rest
  write (bool true) rest = 3 ∷ 0 ∷ rest
  write (bytes b) rest = write_bytes b rest
  write (text s) rest = 13 ∷ 0 ∷ rest
  write (array vs) rest = write_items vs (8 ∷ 0 ∷ rest)
  write (map es) rest = write_entries es (11 ∷ 0 ∷ rest)
  write (other n) rest = 12 ∷ n ∷ rest

  pub write_items : Items → Bytes → Bytes
  write_items nil rest = 6 ∷ 0 ∷ rest
  write_items (v ▸ vs) rest = write v (write_items vs (7 ∷ 0 ∷ rest))

  pub write_entries : Entries → Bytes → Bytes
  write_entries no_entries rest = 9 ∷ 0 ∷ rest
  write_entries (entry k v es) rest = write k (write v (write_entries es (10 ∷ 0 ∷ rest)))

pub data Built : Type 0 where
  value : Value → Built
  items : Items → Built
  entries : Entries → Built

abbrev Stack : Type 0
Stack = Outcome (List Built)

abbrev add_byte : ℕ → List Built → Stack
add_byte b (value (bytes l) ∷ st) = ok (value (bytes (b ∷ l)) ∷ st)
add_byte b st = err cbor_error

abbrev add_item : List Built → Stack
add_item (items vs ∷ value v ∷ st) = ok (items (v ▸ vs) ∷ st)
add_item st = err cbor_error

abbrev end_array : List Built → Stack
end_array (items vs ∷ st) = ok (value (array vs) ∷ st)
end_array st = err cbor_error

abbrev add_entry : List Built → Stack
add_entry (entries es ∷ value v ∷ value k ∷ st) = ok (entries (entry k v es) ∷ st)
add_entry st = err cbor_error

abbrev end_map : List Built → Stack
end_map (entries es ∷ st) = ok (value (map es) ∷ st)
end_map st = err cbor_error

abbrev step : ℕ → ℕ → List Built → Stack
step op n st =
    if op == 0
    then ok (value (integer (pos n)) ∷ st)
    else if op == 1
    then ok (value (integer (negsuc n)) ∷ st)
    else if op == 2
    then ok (value (bool false) ∷ st)
    else if op == 3
    then ok (value (bool true) ∷ st)
    else if op == 4
    then ok (value (bytes []) ∷ st)
    else if op == 5
    then add_byte n st
    else if op == 6
    then ok (items nil ∷ st)
    else if op == 7
    then add_item st
    else if op == 8
    then end_array st
    else if op == 9
    then ok (entries no_entries ∷ st)
    else if op == 10
    then add_entry st
    else if op == 11
    then end_map st
    else if op == 12
    then ok (value (other n) ∷ st)
    else if op == 13
    then ok (value (text "Refused.") ∷ st)
    else err cbor_error

abbrev build : Bytes → List Built → Stack
build [] st = ok st
build (op ∷ []) st = err cbor_error
build (op ∷ n ∷ rest) st = step op n st >>= build rest

abbrev the_array : Stack → Outcome Items
the_array (ok (value (array vs) ∷ [])) = ok vs
the_array _ = err cbor_error

build_bytes :
    (b rest : Bytes) (st : List Built)
    → build (write_bytes b rest) st ≡ build rest (value (bytes b) ∷ st)
build_bytes [] rest st = refl
build_bytes (b ∷ bs) rest st = build_bytes bs (5 ∷ b ∷ rest) st

both : (a b : Bool) → (a && b) ≡ true → (a ≡ true) × (b ≡ true)
both true b e = (refl, e)
both false b e = cc

mutual
  build_value :
      (v : Value) (rest : Bytes) (st : List Built)
      → plain v ≡ true
      → build (write v rest) st ≡ build rest (value v ∷ st)
  build_value (integer (pos n)) rest st h = refl
  build_value (integer (negsuc n)) rest st h = refl
  build_value (bool false) rest st h = refl
  build_value (bool true) rest st h = refl
  build_value (bytes b) rest st h = build_bytes b rest st
  build_value (text s) rest st h =
      ap (λ t. build rest (value (text t) ∷ st)) (sym ((eq_iff s "Refused.").0 h))
  build_value (array vs) rest st h = build_items vs (8 ∷ 0 ∷ rest) st h
  build_value (map es) rest st h = build_entries es (11 ∷ 0 ∷ rest) st h
  build_value (other n) rest st h = refl

  build_items :
      (vs : Items) (rest : Bytes) (st : List Built)
      → plain_items vs ≡ true
      → build (write_items vs rest) st ≡ build rest (items vs ∷ st)
  build_items nil rest st h = refl
  build_items (v ▸ vs) rest st h =
      let (hv, hs) = both (plain v) (plain_items vs) h in
      build_value v _ st hv ∙ build_items vs (7 ∷ 0 ∷ rest) (value v ∷ st) hs

  build_entries :
      (es : Entries) (rest : Bytes) (st : List Built)
      → plain_entries es ≡ true
      → build (write_entries es rest) st ≡ build rest (entries es ∷ st)
  build_entries no_entries rest st h = refl
  build_entries (entry k v es) rest st h =
      let (hk, h') = both (plain k) (plain v && plain_entries es) h in
      let (hv, hs) = both (plain v) (plain_entries es) h' in
      build_value k _ st hk
      ∙ build_value v _ (value k ∷ st) hv
      ∙ build_entries es (10 ∷ 0 ∷ rest) (value v ∷ value k ∷ st) hs

abbrev key_compare : Value → Value → Ordering
key_compare (integer (pos m)) (integer (pos n)) = compare m n
key_compare v w = Ordering.lt

abbrev framed : Bytes → Bytes
framed b = length b ∷ b

abbrev next_of : Outcome Items → Bytes → Next
next_of (ok vs) rest = item vs rest
next_of _ rest = broken

abbrev next : Bytes → Next
next [] = no_more
next (n ∷ d) =
    if ltb (length d) n then eof else next_of (the_array (build (take n d) [])) (drop n d)

abbrev pub sample : Codec
sample = record {
  key_compare = key_compare;
  value_to_vec = λ v. if plain v then ok (write v []) else err cbor_error;
  items_to_vec =
      λ vs. if plain_items vs then ok (framed (write_items vs (8 ∷ 0 ∷ []))) else err cbor_error;
  from_slice = λ b. the_array (build b []);
  next = next;
}

-- A guarded encoder that gives bytes has passed its guard.
passed :
    (t : Bool) (w b : Bytes) → (if t then ok w else err cbor_error) ≡ ok b → (t ≡ true) × (w ≡ b)
passed true w b e = (refl, cc)
passed false w b e = cc

back :
    (vs : Items)
    → plain_items vs ≡ true
    → the_array (build (write_items vs (8 ∷ 0 ∷ [])) []) ≡ ok vs
back vs h = ap the_array (build_items vs (8 ∷ 0 ∷ []) [] h)

next_framed :
    (w rest : Bytes) (vs : Items)
    → the_array (build w []) ≡ ok vs
    → next (framed w ++ rest) ≡ item vs rest
next_framed w rest vs e = elim (Bool-cases (ltb (length (w ++ rest)) (length w))) [
  | inl h ↦ absurd (ground (arith, length-append w rest, h))
  | inr h ↦ rw (h, take-append (length w) w rest refl, e, drop-append (length w) w rest refl)
]

next_short : (n : ℕ) (p : Bytes) → length p < n → next (n ∷ p) ≡ eof
next_short n p h = rw (lt→ltb (length p) n h)

positive : (q : Bytes) → q ≢ [] → 0 < length q
positive [] n = absurd (n refl)
positive (b ∷ q) n = omega arith

next_part : (w p q : Bytes) → framed w ≡ p ++ q → p ≢ [] → q ≢ [] → next p ≡ eof
next_part w [] q e n m = absurd (n refl)
next_part w (a ∷ p) q e n m =
    let (e₁, e₂) : (length w ≡ a) × (w ≡ p ++ q) = (cc, cc) in
    next_short a p (omega (arith, e₁, ap length e₂, length-append p q, positive q m))

next_of-shorter :
    (o : Outcome Items) (d rest : Bytes) (vs : Items) → next_of o d ≡ item vs rest → rest ≡ d
next_of-shorter (ok ws) d rest vs e = cc
next_of-shorter (err x) d rest vs e = cc
next_of-shorter panic d rest vs e = cc

shorter : (d : Bytes) (vs : Items) (rest : Bytes) → next d ≡ item vs rest → length rest < length d
shorter [] vs rest e = cc
shorter (n ∷ d) vs rest e = elim (Bool-cases (ltb (length d) n)) [
  | inl h ↦ cc
  | inr h ↦
      let same : rest ≡ drop n d =
        next_of-shorter (the_array (build (take n d) [])) (drop n d) rest vs (sym (rw h) ∙ e) in
      omega (arith, ap length same, length-drop n d)
]

pub sample-IsCodec : IsCodec sample
sample-IsCodec = record {
  key_order = λ m n. refl;
  slice_round_trip = λ vs b e.
      let (h, w) = passed (plain_items vs) _ b e in
      ap (λ d. the_array (build d [])) (sym w) ∙ back vs h;
  next_round_trip = λ vs b rest e.
      let (h, w) = passed (plain_items vs) _ b e in
      ap (λ d. next (d ++ rest)) (sym w)
      ∙ next_framed (write_items vs (8 ∷ 0 ∷ [])) rest vs (back vs h);
  next_nothing = refl;
  next_cut =
      λ vs p q e n m. let (h, w) = passed (plain_items vs) _ (p ++ q) e in next_part _ p q w n m;
  next_shorter = shorter;
}
