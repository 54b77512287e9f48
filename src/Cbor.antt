-- ===== src/Cbor.antt =====
-- The CBOR library `serde_cbor` as the crate uses it: its data type of values, by the variants that
-- the source names, and its encoder, decoder and key order as a parameter with laws.
pub mod Sample
use Prim.Native.Nat.{compare, Ordering}
use Prim.Native.String.{String}
use rust_cardano_ouroboros_n.Prelude.{ℕ, ◌<◌, Bool, ◌≡◌, ◌≢◌, [], ◌++◌, length}
use rust_cardano_ouroboros_n.Prelude.Int.{ℤ, pos}
use rust_cardano_ouroboros_n.Prelude.Outcome.{Outcome, ok}
use rust_cardano_ouroboros_n.Model.{Bytes}

-- `Items` is `Vec<Value>` and `Entries` is `BTreeMap<Value, Value>` in the order of its keys.
-- `other` stands for the variants that the crate never names.
infixr 67 ◌▸◌
mutual
  pub data Value : Type 0 where
    integer : ℤ → Value
    bool : Bool → Value
    bytes : Bytes → Value
    text : String → Value
    array : Items → Value
    map : Entries → Value
    other : ℕ → Value

  pub data Items : Type 0 where
    nil : Items
    ◌▸◌ : Value → Items → Items

  pub data Entries : Type 0 where
    no_entries : Entries
    entry : Value → Value → Entries → Entries

-- What the streaming deserializer gives at an offset: the end of its input, an array with the input
-- behind it, an error for which `is_eof` holds, or another error.
pub data Next : Type 0 where
  no_more : Next
  item : Items → Bytes → Next
  eof : Next
  broken : Next

pub record Codec : Type 0 where
  -- `Ord for Value`, by which `BTreeMap` orders keys.
  pub key_compare : Value → Value → Ordering
  -- `to_vec` of a `Value` and of a `Vec<Value>`, and `from_slice::<Vec<Value>>`.
  pub value_to_vec : Value → Outcome Bytes
  pub items_to_vec : Items → Outcome Bytes
  pub from_slice : Bytes → Outcome Items
  -- `Deserializer::from_slice(data).into_iter::<Vec<Value>>().next()` at the start of `data`.
  pub next : Bytes → Next

-- The documented behaviour that proofs rest on.
pub record IsCodec (c : Codec) : Type 0 where
  -- Integers that are not negative are ordered by magnitude.
  pub key_order : (m n : ℕ) → c.key_compare (integer (pos m)) (integer (pos n)) ≡ compare m n
  -- What was written is read back, from the front of any input.
  pub slice_round_trip :
      (vs : Items) (b : Bytes) → c.value_to_vec (array vs) ≡ ok b → c.from_slice b ≡ ok vs
  pub next_round_trip :
      (vs : Items) (b rest : Bytes) → c.items_to_vec vs ≡ ok b → c.next (b ++ rest) ≡ item vs rest
  pub next_nothing : c.next [] ≡ no_more
  -- A proper part of what was written is an unexpected end of input.
  pub next_cut :
      (vs : Items) (p q : Bytes)
      → c.items_to_vec vs ≡ ok (p ++ q)
      → p ≢ []
      → q ≢ []
      → c.next p ≡ eof
  -- Every item takes a byte at least.
  pub next_shorter :
      (d : Bytes) (vs : Items) (rest : Bytes) → c.next d ≡ item vs rest → length rest < length d
