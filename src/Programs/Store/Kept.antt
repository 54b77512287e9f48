-- ===== src/Programs/Store/Kept.antt =====
-- What the database holds after some blocks: each under its own hash, and every one that was handled.
use rust_cardano_ouroboros_n.Prelude.{List, [], ◌∷◌, ◌≡◌, ◌≢◌, inl, inr, refl, sym, subst}
use rust_cardano_ouroboros_n.Prelude.Outcome.{Outcome, ok, err, panic}
use rust_cardano_ouroboros_n.Model.{Bytes}
use rust_cardano_ouroboros_n.Programs.Store.{
  Record, Has, Tree, IsTree, Blocks, handle_block, handle_blocks, after_decode, after_insert,
  after_crawl, after_block,
}

module _ {Block : Type 0} (lib : Blocks Block) where
  -- A record stands under the hash of the block in it.
  abbrev pub IsOwn : Record → Type 0
  IsOwn (key, bytes) =
      (block : Block) × (lib.decode bytes ≡ ok block) × (lib.header_hash block ≡ key)

module _ {Db Block : Type 0} (tree : Tree Db) (laws : IsTree Db tree) (lib : Blocks Block) where
  abbrev pub IsStore : Db → Type 0
  IsStore db = (r : Record) → Has r (tree.records db) → IsOwn lib r

  -- What handling a block may do: store it, or fail and store nothing.
  data Handled (bytes : Bytes) (db : Db) (x : Outcome (Unit {0}) × Db) : Type 0 where
    stored :
        (block : Block)
        → lib.decode bytes ≡ ok block
        → tree.insert (lib.header_hash block) bytes db ≡ ok x.1
        → Handled bytes db x
    refused : x.0 ≢ ok tt → x.1 ≡ db → Handled bytes db x

  handle_block-Handled :
      (bytes : Bytes) (db : Db) → Handled bytes db (handle_block tree lib bytes db)
  unfolding handle_block
  handle_block-Handled bytes db = decoded (lib.decode bytes) refl
    where
      crawling :
          (block : Block) (o : Outcome (Unit {0})) (after : Db)
          → lib.decode bytes ≡ ok block
          → tree.insert (lib.header_hash block) bytes db ≡ ok after
          → Handled bytes db (after_crawl tree lib o after)
      crawling block (ok _) after d e = stored block d e
      crawling block (err x) after d e = stored block d e
      crawling block panic after d e = stored block d e

      inserted :
          (block : Block) (o : Outcome Db)
          → lib.decode bytes ≡ ok block
          → tree.insert (lib.header_hash block) bytes db ≡ o
          → Handled bytes db (after_insert tree lib block o db)
      inserted block (ok after) d e = crawling block (lib.crawl block) after d e
      inserted block (err x) d e = refused (λ q. cc) refl
      inserted block panic d e = refused (λ q. cc) refl

      decoded :
          (o : Outcome Block)
          → lib.decode bytes ≡ o
          → Handled bytes db (after_decode tree lib bytes o db)
      decoded (ok block) d = inserted block (tree.insert (lib.header_hash block) bytes db) d refl
      decoded (err x) d = refused (λ q. cc) refl
      decoded panic d = refused (λ q. cc) refl

  Handled-IsStore :
      (bytes : Bytes) (db : Db) (x : Outcome (Unit {0}) × Db)
      → Handled bytes db x
      → IsStore db
      → IsStore x.1
  Handled-IsStore bytes db x (refused n e) h = subst IsStore (sym e) h
  Handled-IsStore bytes db x (stored block d e) h = λ r m.
      elim (laws.kept (lib.header_hash block) bytes db x.1 r e m) [
        | inl q ↦ subst (IsOwn lib) (sym q) (block, d, refl)
        | inr k ↦ h r k
      ]

  -- A key with a value.
  abbrev pub HasKey : Bytes → Db → Type 0
  HasKey key db = (value : Bytes) × Has (key, value) (tree.records db)

  Handled-HasKey :
      (bytes key : Bytes) (db : Db) (x : Outcome (Unit {0}) × Db)
      → Handled bytes db x
      → HasKey key db
      → HasKey key x.1
  Handled-HasKey bytes key db x (refused n e) h = subst (HasKey key) (sym e) h
  Handled-HasKey bytes key db x (stored block d e) (value, h) =
      laws.not_removed (lib.header_hash block) bytes db x.1 (key, value) e h

  Handled-stored :
      (bytes : Bytes) (block : Block) (db : Db) (x : Outcome (Unit {0}) × Db)
      → Handled bytes db x
      → x.0 ≡ ok tt
      → lib.decode bytes ≡ ok block
      → HasKey (lib.header_hash block) x.1
  Handled-stored bytes block db x (refused n e) o d = absurd (n o)
  Handled-stored bytes block db x (stored b c e) o d =
      let same : b ≡ block = cc in
      (bytes, laws.inserted (lib.header_hash block) bytes db x.1 (rw (← same) e))

  pub handle_blocks-IsStore :
      (stream : List Bytes) (db : Db) → IsStore db → IsStore (handle_blocks tree lib stream db).1
  unfolding handle_blocks
  handle_blocks-IsStore [] db h = h
  handle_blocks-IsStore (bytes ∷ rest) db h =
      go (handle_block tree lib bytes db)
        (Handled-IsStore bytes db _ (handle_block-Handled bytes db) h) (handle_blocks-IsStore rest)
    where
      go :
          (x : Outcome (Unit {0}) × Db)
          → IsStore x.1
          → ((after : Db) → IsStore after → IsStore (handle_blocks tree lib rest after).1)
          → IsStore (after_block tree lib (handle_blocks tree lib rest) x).1
      go (ok _, after) k ih = ih after k
      go (err e, after) k ih = k
      go (panic, after) k ih = k

  handle_blocks-HasKey :
      (key : Bytes) (stream : List Bytes) (db : Db)
      → HasKey key db
      → HasKey key (handle_blocks tree lib stream db).1
  unfolding handle_blocks
  handle_blocks-HasKey key [] db h = h
  handle_blocks-HasKey key (bytes ∷ rest) db h =
      go (handle_block tree lib bytes db)
        (Handled-HasKey bytes key db _ (handle_block-Handled bytes db) h)
        (handle_blocks-HasKey key rest)
    where
      go :
          (x : Outcome (Unit {0}) × Db)
          → HasKey key x.1
          → ((after : Db) → HasKey key after → HasKey key (handle_blocks tree lib rest after).1)
          → HasKey key (after_block tree lib (handle_blocks tree lib rest) x).1
      go (ok _, after) k ih = ih after k
      go (err e, after) k ih = k
      go (panic, after) k ih = k

  pub handle_blocks-stored :
      (stream : List Bytes) (db : Db) (bytes : Bytes) (block : Block)
      → (handle_blocks tree lib stream db).0 ≡ ok tt
      → Has bytes stream
      → lib.decode bytes ≡ ok block
      → HasKey (lib.header_hash block) (handle_blocks tree lib stream db).1
  unfolding handle_blocks
  handle_blocks-stored [] db bytes block o m d = absurd m
  handle_blocks-stored (b ∷ rest) db bytes block o m d =
      go (handle_block tree lib b db) (Handled-stored b block db _ (handle_block-Handled b db)) o
        (λ after q k. handle_blocks-stored rest after bytes block q k d)
    where
      go :
          (x : Outcome (Unit {0}) × Db)
          → (x.0 ≡ ok tt → lib.decode b ≡ ok block → HasKey (lib.header_hash block) x.1)
          → (after_block tree lib (handle_blocks tree lib rest) x).0 ≡ ok tt
          → ((after : Db)
              → (handle_blocks tree lib rest after).0 ≡ ok tt
              → Has bytes rest
              → HasKey (lib.header_hash block) (handle_blocks tree lib rest after).1)
          → HasKey (lib.header_hash block) (after_block tree lib (handle_blocks tree lib rest) x).1
      go (err e, after) k q ih = cc
      go (panic, after) k q ih = cc
      go (ok u, after) k q ih = elim m [
        | inl same ↦ handle_blocks-HasKey (lib.header_hash block) rest after (k refl (rw same d))
        | inr later ↦ ih after q later
      ]
