-- ===== src/Programs/Store/ReadBack.antt =====
-- Every block that was stored is read back under the hash that it was stored under.
use rust_cardano_ouroboros_n.Prelude.{
  true, List, [], ◌∷◌, map, ==_refl, ◌≡◌, inl, inr, refl, ap, ◌∙◌, subst,
}
use rust_cardano_ouroboros_n.Prelude.Outcome.{Outcome, ok}
use rust_cardano_ouroboros_n.Model.{Bytes}
use rust_cardano_ouroboros_n.Programs.Store.Kept.{
  IsOwn, handle_blocks-IsStore, handle_blocks-stored,
}
use rust_cardano_ouroboros_n.Programs.Store.{
  same_bytes, Record, Has, Tree, IsTree, Blocks, Event, crawled, handle_blocks, log_event,
  read_block, read_blocks,
}

same_bytes_refl : (b : Bytes) → same_bytes b b ≡ true
same_bytes_refl [] = refl
same_bytes_refl (x ∷ xs) = rw (==_refl x, same_bytes_refl xs)

module _ {Block : Type 0} (lib : Blocks Block) where
  -- The blocks in some records.
  abbrev pub Decodes : List Record → List Block → Type 0
  Decodes [] [] = Unit {0}
  Decodes ((key, bytes) ∷ rest) (block ∷ blocks) =
      (lib.decode bytes ≡ ok block) × (lib.header_hash block ≡ key) × Decodes rest blocks
  Decodes _ _ = ⊥

  read_block-IsOwn :
      (key bytes : Bytes) (block : Block)
      → lib.crawl block ≡ ok tt
      → lib.decode bytes ≡ ok block
      → lib.header_hash block ≡ key
      → {later : List (Event Block) × Outcome (Unit {0})}
      → read_block lib key (lib.decode bytes) later ≡ log_event lib (crawled block) later
  read_block-IsOwn key bytes block c d e = rw (d, ← e, same_bytes_refl (lib.header_hash block), c)

  read_blocks-IsOwn :
      (records : List Record)
      → ((block : Block) → lib.crawl block ≡ ok tt)
      → ((r : Record) → Has r records → IsOwn lib r)
      → (blocks : List Block) × Decodes records blocks
        × (read_blocks lib records ≡ (map crawled blocks, ok tt))
  unfolding read_blocks
  read_blocks-IsOwn [] c h = ([], tt, refl)
  read_blocks-IsOwn ((key, bytes) ∷ rest) c h =
      let (block, d, e) = h (key, bytes) (inl refl) in
      let (blocks, ds, q) = read_blocks-IsOwn rest c (λ r m. h r (inr m)) in
      (
        block ∷ blocks,
        (d, e, ds),
        read_block-IsOwn key bytes block (c block) d e ∙ ap (log_event lib (crawled block)) q,
      )

module _ {Db Block : Type 0} (tree : Tree Db) (laws : IsTree Db tree) (lib : Blocks Block) where
  block_of_HasKey :
      (key value : Bytes) (records : List Record) (blocks : List Block)
      → Decodes lib records blocks
      → Has (key, value) records
      → (block : Block) × Has block blocks × (lib.header_hash block ≡ key)
  block_of_HasKey key value [] blocks d m = absurd m
  block_of_HasKey key value (r ∷ records) [] d m = absurd d
  block_of_HasKey key value ((k, b) ∷ records) (x ∷ blocks) (d, e, ds) m = elim m [
    | inl q ↦ (x, inl refl, e ∙ ap (λ (r : Record). r.0) q)
    | inr later ↦
        let (block, h, p) = block_of_HasKey key value records blocks ds later in (block, inr h, p)
  ]

  -- A database that held no blocks takes any stream of blocks, also one that ends in an error or a panic.
  -- Where the writer accepts every block, `blockread` then ends well, finds no wrong hash, and crawls
  -- exactly the blocks in the records, in their order; and if the whole stream was handled, then for each
  -- of its blocks there is one among them that has the same hash.
  pub read_blocks-handle_blocks :
      (stream : List Bytes) (db : Db)
      → tree.records db ≡ []
      → ((block : Block) → lib.crawl block ≡ ok tt)
      → let (outcome, after) = handle_blocks tree lib stream db in
        (blocks : List Block) × Decodes lib (tree.records after) blocks
        × (read_blocks lib (tree.records after) ≡ (map crawled blocks, ok tt))
        × (outcome ≡ ok tt
            → (bytes : Bytes) (block : Block) → Has bytes stream
            → lib.decode bytes ≡ ok block
            → (same : Block) × Has same blocks × (lib.header_hash same ≡ lib.header_hash block))
  read_blocks-handle_blocks stream db e c =
      let after = (handle_blocks tree lib stream db).1 in
      let (blocks, d, q) =
        read_blocks-IsOwn lib (tree.records after) c
          (handle_blocks-IsStore tree laws lib stream db (λ r m. absurd (subst (Has r) e m))) in
      (
        blocks,
        d,
        q,
        λ o bytes block m h.
            let (value, k) = handle_blocks-stored tree laws lib stream db bytes block o m h in
            block_of_HasKey (lib.header_hash block) value (tree.records after) blocks d k,
      )
