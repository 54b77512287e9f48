-- ===== src/Programs/Store/Examples.antt =====
-- A database as a list of records, and the theorem on it.
use rust_cardano_ouroboros_n.Prelude.{
  ℕ, ◌≡◌, ◌⊎◌, inl, inr, refl, sym, ap, ap₂, subst, ◌∙◌, List, [], ◌∷◌, map, true, Bool-cases, ◌==◌,
  ==_iff, if◌then◌else◌,
}
use rust_cardano_ouroboros_n.Prelude.Outcome.{Outcome, ok, err, cbor_error}
use rust_cardano_ouroboros_n.Model.{Bytes}
use rust_cardano_ouroboros_n.Programs.Store.{
  same_bytes, Record, Has, Tree, IsTree, Blocks, crawled, handle_block, handle_blocks, read_blocks,
}
use rust_cardano_ouroboros_n.Programs.Store.ReadBack.{Decodes, read_blocks-handle_blocks}

abbrev put : Bytes → Bytes → List Record → List Record
put key value [] = (key, value) ∷ []
put key value ((k, v) ∷ rest) =
    let later = put key value rest in
    if same_bytes key k then (key, value) ∷ rest else (k, v) ∷ later

same_bytes-eq : (a b : Bytes) → same_bytes a b ≡ true → a ≡ b
same_bytes-eq [] [] e = refl
same_bytes-eq [] (y ∷ ys) e = cc
same_bytes-eq (x ∷ xs) [] e = cc
same_bytes-eq (x ∷ xs) (y ∷ ys) e = elim (Bool-cases (x == y)) [
  | inl h ↦ ap₂ (λ z zs. z ∷ zs) ((==_iff x y).0 h) (same_bytes-eq xs ys (rw h at e))
  | inr h ↦ cc (e, h)
]

Has-put : (key value : Bytes) (rs : List Record) → Has (key, value) (put key value rs)
Has-put key value [] = inl refl
Has-put key value ((k, v) ∷ rest) = elim (Bool-cases (same_bytes key k)) [
  | inl e ↦ rw e (inl refl)
  | inr e ↦ rw e (inr (Has-put key value rest))
]

put-kept :
    (key value : Bytes) (rs : List Record) (r : Record)
    → Has r (put key value rs)
    → (r ≡ (key, value)) ⊎ Has r rs
put-kept key value [] r m = elim m [ inl e ↦ inl (sym e) | inr f ↦ absurd f ]
put-kept key value ((k, v) ∷ rest) r m = elim (Bool-cases (same_bytes key k)) [
  | inl e ↦
      let h : Has r ((key, value) ∷ rest) =
        subst (λ b. Has r (if b then (key, value) ∷ rest else (k, v) ∷ put key value rest)) e m in
      elim h [ inl q ↦ inl (sym q) | inr l ↦ inr (inr l) ]
  | inr e ↦
      let h : Has r ((k, v) ∷ put key value rest) =
        subst (λ b. Has r (if b then (key, value) ∷ rest else (k, v) ∷ put key value rest)) e m in
      elim h [
        | inl q ↦ inr (inl q)
        | inr l ↦ elim (put-kept key value rest r l) [ inl q ↦ inl q | inr n ↦ inr (inr n) ]
      ]
]

put-not_removed :
    (key value : Bytes) (rs : List Record) (r : Record)
    → Has r rs
    → (new_value : Bytes) × Has (r.0, new_value) (put key value rs)
put-not_removed key value [] r m = absurd m
put-not_removed key value ((k, v) ∷ rest) r m = elim (Bool-cases (same_bytes key k)) [
  | inl e ↦ rw e (elim m [
    | inl q ↦ (
      value,
      inl (ap (λ (b : Bytes). (b, value)) (same_bytes-eq key k e ∙ ap (λ (x : Record). x.0) q)),
    )
    | inr l ↦ (r.1, inr l)
  ])
  | inr e ↦ rw e (elim m [
    | inl q ↦ (v, inl (ap (λ (x : Record). (x.0, v)) q))
    | inr l ↦ let (new_value, h) = put-not_removed key value rest r l in (new_value, inr h)
  ])
]

abbrev tree : Tree (List Record)
tree = record { insert = λ key value db. ok (put key value db); records = λ db. db }

ok-inj : (a b : List Record) → ok a ≡ ok b → a ≡ b
ok-inj a b e = cc

tree-IsTree : IsTree (List Record) tree
tree-IsTree = record {
  inserted = λ key value db after e.
      subst (Has (key, value)) (ok-inj (put key value db) after e) (Has-put key value db);
  kept = λ key value db after r e m.
      put-kept key value db r (subst (Has r) (sym (ok-inj (put key value db) after e)) m);
  not_removed = λ key value db after r e m.
      subst (λ d. (new_value : Bytes) × Has (r.0, new_value) d) (ok-inj (put key value db) after e)
        (put-not_removed key value db r m);
}

-- Blocks are numbers, each the first of its bytes, and a hash is one byte.
abbrev decode : Bytes → Outcome ℕ
decode [] = err cbor_error
decode (b ∷ rest) = ok b

abbrev lib : Blocks ℕ
lib = record { decode = decode; header_hash = λ b. b ∷ []; crawl = λ b. ok tt }

abbrev stream : List Bytes
stream = (7 ∷ 1 ∷ []) ∷ (8 ∷ []) ∷ (7 ∷ 2 ∷ []) ∷ []

read_blocks_twice :
    read_blocks lib (handle_blocks tree lib stream []).1 ≡ (crawled 7 ∷ crawled 8 ∷ [], ok tt)
unfolding read_blocks handle_blocks handle_block
read_blocks_twice = refl

read_blocks-handle_blocks_example :
    let (outcome, after) = handle_blocks tree lib stream [] in
    (blocks : List ℕ) × Decodes lib after blocks
    × (read_blocks lib after ≡ (map crawled blocks, ok tt))
    × (outcome ≡ ok tt
        → (bytes : Bytes) (block : ℕ) → Has bytes stream
        → decode bytes ≡ ok block
        → (same : ℕ) × Has same blocks × (◌≡◌ {A = Bytes} (same ∷ []) (block ∷ [])))
read_blocks-handle_blocks_example =
    read_blocks-handle_blocks tree tree-IsTree lib stream [] refl (λ b. refl)
