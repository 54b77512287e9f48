-- ===== src/Handshake/Versions.antt =====
-- src/protocols/handshake.rs: protocol versions, their keys and parameters in a proposal, and their
-- 16-bit form.
pub mod RoundTrip
use rust_cardano_ouroboros_n.Prelude.{
  ℕ, Bool, true, false, Option, none, some, if◌then◌else◌, ◌==◌, leb, ltb, ◌&&◌, ◌^◌,
}
use rust_cardano_ouroboros_n.Prelude.Int.{ℤ, pos, negsuc, as_u32}
use rust_cardano_ouroboros_n.Prelude.Words.{flip_top, has_top}
use rust_cardano_ouroboros_n.Prelude.Outcome.{
  Outcome, ok, err, panic, unsupported_version, version_required, magic_required,
  parameters_required, false_expected,
}
use rust_cardano_ouroboros_n.Cbor.{Value, Items, nil, ◌▸◌, integer, bool, array}

-- Node-to-node and client-to-node versions.
pub data Version : Type 0 where
  n2n : ℤ → Version
  c2n : ℤ → Version

abbrev same_integer : ℤ → ℤ → Bool
same_integer (pos m) (pos n) = m == n
same_integer (negsuc m) (negsuc n) = m == n
same_integer _ _ = false

-- `PartialEq for Version`.
abbrev pub same_version : Version → Version → Bool
same_version (n2n a) (n2n b) = same_integer a b
same_version (c2n a) (c2n b) = same_integer a b
same_version _ _ = false

-- A range pattern `lo..=hi` on an `i128`.
abbrev in_range : ℕ → ℕ → ℤ → Bool
in_range lo hi (pos n) = leb lo n && leb n hi
in_range lo hi (negsuc n) = false

-- `0x8000 ^ v` on an `i128`.
abbrev flip_integer : ℤ → ℤ
flip_integer (pos n) = pos (flip_top n)
flip_integer (negsuc n) = negsuc (flip_top n)

-- `Version::to_values`.
unfoldable pub version_to_values : Version → ℕ → Outcome (Value × Value)
version_to_values (n2n v) magic =
    if in_range 1 3 v
    then ok (integer v, integer (pos magic))
    else if in_range 4 7 v
    then ok (integer v, array (integer (pos magic) ▸ bool false ▸ nil))
    else err unsupported_version
version_to_values (c2n v) magic =
    if in_range 1 9 v
    then ok (integer (flip_integer v), integer (pos magic))
    else err unsupported_version

-- `Value::Integer(magic) => magic as u32`.
abbrev read_magic : Option Value → Outcome ℕ
read_magic (some (integer magic)) = ok (as_u32 magic)
read_magic _ = err magic_required

abbrev with_version {ℓ} : {A : Type ℓ} → A → Outcome ℕ → Outcome (A × ℕ)
with_version v (ok magic) = ok (v, magic)
with_version v (err e) = err e
with_version v panic = panic

-- The parameters of the versions 4 to 7: a magic and `false`, and whatever follows.
abbrev read_false : Items → ℕ → Outcome ℕ
read_false (bool false ▸ rest) magic = ok magic
read_false _ magic = err false_expected

abbrev read_parameters : Value → Outcome ℕ
read_parameters (array (integer magic ▸ rest)) = read_false rest (as_u32 magic)
read_parameters (array _) = err magic_required
read_parameters _ = err parameters_required

abbrev between : ℕ → ℕ → ℕ → Bool
between lo hi n = leb lo n && leb n hi

abbrev read_numbered : ℕ → Value → Outcome (Version × ℕ)
read_numbered version value =
    if between 0x0001 0x0003 version
    then with_version (n2n (pos version)) (read_magic (some value))
    else if between 0x0004 0x0007 version
    then with_version (n2n (pos version)) (read_parameters value)
    else if between 0x8001 0x8009 version
    then with_version (c2n (pos (flip_top version))) (read_magic (some value))
    else err unsupported_version

-- `Version::from_values`.
unfoldable pub version_of_values : Value → Value → Outcome (Version × ℕ)
version_of_values (integer version) value = read_numbered (as_u32 version) value
version_of_values _ value = err version_required

-- `Version::from_u16`.
unfoldable pub from_u16 : ℕ → Version
from_u16 value = if has_top value then c2n (pos (flip_top value)) else n2n (pos value)

-- `u16::try_from(version).unwrap()`.
abbrev to_word : ℤ → Outcome ℕ
to_word (pos n) = if ltb n (2 ^ 16) then ok n else panic
to_word (negsuc n) = panic

abbrev flip_word : Outcome ℕ → Outcome ℕ
flip_word (ok n) = ok (flip_top n)
flip_word (err e) = err e
flip_word panic = panic

-- `Version::to_u16`.
unfoldable pub to_u16 : Version → Outcome ℕ
to_u16 (n2n version) = to_word version
to_u16 (c2n version) = flip_word (to_word version)
