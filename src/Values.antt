-- ===== src/Values.antt =====
-- src/protocols.rs, `Values`: an iterator over CBOR values. A method takes the values that are left
-- and returns its outcome with those left behind it; the callers go on after an error too.
use rust_cardano_ouroboros_n.Prelude.{Bool, Option, none, some}
use rust_cardano_ouroboros_n.Prelude.Int.{ℤ}
use rust_cardano_ouroboros_n.Prelude.Outcome.{
  Outcome, ok, err, panic, array_required, map_required, integer_required, bool_required,
  bytes_required, end_required,
}
use rust_cardano_ouroboros_n.Model.{Bytes}
use rust_cardano_ouroboros_n.Cbor.{
  Value, Items, Entries, nil, ◌▸◌, integer, bool, bytes, array, map,
}

abbrev pub Cursor {ℓ} : Type ℓ → Type ℓ
Cursor A = Items → Outcome A × Items

-- `Values::from_vec` starts at the first value, and `to_vec` collects those that are left.
abbrev pub from_vec : Items → Items
from_vec values = values

abbrev pub to_vec : Items → Items
to_vec values = values

module _ {ℓ κ} {A : Type ℓ} {B : Type κ} where
  infixl 5 ◌>>=◌ ◌>>◌
  -- `?`: an error or a panic ends the method.
  abbrev continue : (A → Cursor B) → Outcome A × Items → Outcome B × Items
  continue f (ok a, rest) = f a rest
  continue f (err e, rest) = (err e, rest)
  continue f (panic, rest) = (panic, rest)

  abbrev pub ◌>>=◌ : Cursor A → (A → Cursor B) → Cursor B
  m >>= f = λ values. continue f (m values)

  abbrev pub ◌>>◌ : Cursor A → Cursor B → Cursor B
  m >> k = m >>= λ _. k

module _ {ℓ} {A : Type ℓ} where
  abbrev pub pure : A → Cursor A
  pure a values = (ok a, values)

  abbrev pub lift : Outcome A → Cursor A
  lift outcome values = (outcome, values)

  -- A method that consumes the iterator: what is left is dropped.
  abbrev pub consume : Cursor A → Items → Outcome A
  consume m values = (m values).0

-- `self.0.next()`.
abbrev take_next : Items → Option Value × Items
take_next nil = (none, nil)
take_next (v ▸ rest) = (some v, rest)

abbrev pub read_array : Option Value → Outcome Items
read_array (some (array values)) = ok values
read_array _ = err array_required

unfoldable pub next_array : Cursor Items
next_array values = let (v, rest) = take_next values in (read_array v, rest)

abbrev pub read_map : Option Value → Outcome Entries
read_map (some (map entries)) = ok entries
read_map _ = err map_required

unfoldable pub next_map : Cursor Entries
next_map values = let (v, rest) = take_next values in (read_map v, rest)

abbrev pub read_integer : Option Value → Outcome ℤ
read_integer (some (integer value)) = ok value
read_integer _ = err integer_required

unfoldable pub next_integer : Cursor ℤ
next_integer values = let (v, rest) = take_next values in (read_integer v, rest)

abbrev pub read_bool : Option Value → Outcome Bool
read_bool (some (bool value)) = ok value
read_bool _ = err bool_required

unfoldable pub next_bool : Cursor Bool
next_bool values = let (v, rest) = take_next values in (read_bool v, rest)

abbrev pub read_bytes : Option Value → Outcome Bytes
read_bytes (some (bytes vec)) = ok vec
read_bytes _ = err bytes_required

unfoldable pub next_bytes : Cursor Bytes
next_bytes values = let (v, rest) = take_next values in (read_bytes v, rest)

abbrev pub read_end : Option Value → Outcome (Unit {0})
read_end none = ok tt
read_end (some _) = err end_required

unfoldable pub end : Cursor (Unit {0})
end values = let (v, rest) = take_next values in (read_end v, rest)
