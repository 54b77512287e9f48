-- ===== src/Programs/Store.antt =====
-- examples/common.rs, `handle_block`, and examples/blockread.rs: blocks are stored under the hashes of
-- their headers, and read back. The decoder of blocks, the hash, the database tree of `sled` and the
-- writer of events are parameters.
pub mod Kept
pub mod ReadBack
mod Examples
use rust_cardano_ouroboros_n.Prelude.{
  Bool, true, false, List, [], ◌∷◌, ◌==◌, ◌&&◌, if◌then◌else◌, ◌≡◌, ◌⊎◌, inl, inr,
}
use rust_cardano_ouroboros_n.Prelude.Outcome.{Outcome, ok, err, panic}
use rust_cardano_ouroboros_n.Model.{Bytes}

-- `==` on byte strings.
abbrev pub same_bytes : Bytes → Bytes → Bool
same_bytes [] [] = true
same_bytes (a ∷ as') (b ∷ bs) = (a == b) && same_bytes as' bs
same_bytes _ _ = false

-- A key and its value.
abbrev pub Record : Type 0
Record = Bytes × Bytes

abbrev pub Has : {A : Type 0} → A → List A → Type 0
Has a [] = ⊥
Has a (b ∷ bs) = (b ≡ a) ⊎ Has a bs

-- A tree of the database: `insert`, and the records in the order of the iterator.
pub record Tree (Db : Type 0) : Type 0 where
  pub insert : Bytes → Bytes → Db → Outcome Db
  pub records : Db → List Record

-- The documented behaviour of `insert`: it sets the key to the value, sets no other key, and removes no
-- key.
pub record IsTree (Db : Type 0) (tree : Tree Db) : Type 0 where
  pub inserted :
      (key value : Bytes) (db after : Db)
      → tree.insert key value db ≡ ok after
      → Has (key, value) (tree.records after)
  pub kept :
      (key value : Bytes) (db after : Db) (r : Record)
      → tree.insert key value db ≡ ok after
      → Has r (tree.records after)
      → (r ≡ (key, value)) ⊎ Has r (tree.records db)
  pub not_removed :
      (key value : Bytes) (db after : Db) (r : Record)
      → tree.insert key value db ≡ ok after
      → Has r (tree.records db)
      → (new_value : Bytes) × Has (r.0, new_value) (tree.records after)

-- `BlockWrapper::decode_fragment`, `hash_block_header` of a block, and `EventWriter::crawl`.
pub record Blocks (Block : Type 0) : Type 0 where
  pub decode : Bytes → Outcome Block
  pub header_hash : Block → Bytes
  pub crawl : Block → Outcome (Unit {0})

-- What the writer and the log get.
pub data Event (Block : Type 0) : Type 0 where
  crawled : Block → Event Block
  hash_differs : Event Block

module _ {Db Block : Type 0} (tree : Tree Db) (lib : Blocks Block) where
  abbrev after_crawl : Outcome (Unit {0}) → Db → Outcome (Unit {0}) × Db
  after_crawl (ok _) db = (ok tt, db)
  after_crawl (err e) db = (panic, db)
  after_crawl panic db = (panic, db)

  abbrev after_insert : Block → Outcome Db → Db → Outcome (Unit {0}) × Db
  after_insert block (ok after) db = after_crawl (lib.crawl block) after
  after_insert block (err e) db = (err e, db)
  after_insert block panic db = (panic, db)

  abbrev after_decode : Bytes → Outcome Block → Db → Outcome (Unit {0}) × Db
  after_decode bytes (ok block) db =
      after_insert block (tree.insert (lib.header_hash block) bytes db) db
  after_decode bytes (err e) db = (err e, db)
  after_decode bytes panic db = (panic, db)

  -- `Config::handle_block`.
  unfoldable pub handle_block : Bytes → Db → Outcome (Unit {0}) × Db
  handle_block bytes db = after_decode bytes (lib.decode bytes) db

  abbrev pub after_block :
      (Db → Outcome (Unit {0}) × Db) → Outcome (Unit {0}) × Db → Outcome (Unit {0}) × Db
  after_block more (ok _, db) = more db
  after_block more (err e, db) = (err e, db)
  after_block more (panic, db) = (panic, db)

  -- The blocks of a stream, until one cannot be handled: `cfg.handle_block(&block)?` in a loop.
  unfoldable pub handle_blocks : List Bytes → Db → Outcome (Unit {0}) × Db
  handle_blocks [] db = (ok tt, db)
  handle_blocks (bytes ∷ rest) db = after_block (handle_blocks rest) (handle_block bytes db)

module _ {Block : Type 0} (lib : Blocks Block) where
  abbrev Read : Type 0
  Read = List (Event Block) × Outcome (Unit {0})

  abbrev pub log_event : Event Block → Read → Read
  log_event e (events, outcome) = (e ∷ events, outcome)

  abbrev crawl_block : Outcome (Unit {0}) → Block → Read → Read
  crawl_block (ok _) block later = log_event (crawled block) later
  crawl_block (err e) block later = ([], panic)
  crawl_block panic block later = ([], panic)

  abbrev check_hash : Bool → Block → Read → Read
  check_hash true block later = crawl_block (lib.crawl block) block later
  check_hash false block later = log_event hash_differs later

  abbrev pub read_block : Bytes → Outcome Block → Read → Read
  read_block key (ok block) later = check_hash (same_bytes key (lib.header_hash block)) block later
  read_block key (err e) later = ([], err e)
  read_block key panic later = ([], panic)

  -- The loop of `blockread` over the records.
  unfoldable pub read_blocks : List Record → Read
  read_blocks [] = ([], ok tt)
  read_blocks ((key, bytes) ∷ rest) = read_block key (lib.decode bytes) (read_blocks rest)
