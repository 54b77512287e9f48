-- ===== src/Handshake/Versions/RoundTrip.antt =====
-- Versions survive the trip through a proposal's entry and through 16 bits.
use rust_cardano_ouroboros_n.Prelude.{
  ℕ, ◌+◌, ◌-◌, ◌^◌, ◌≤◌, ◌<◌, ◌≡◌, refl, ap, ◌∙◌, arith, false, ltb, if◌then◌else◌,
}
use native.Mathlib.Decide.{dec_lt}
use rust_cardano_ouroboros_n.Prelude.Int.{pos, negsuc, IsU16, IsU32}
use rust_cardano_ouroboros_n.Prelude.Words.{flip_top_low, flip_top_high, has_top_low, has_top_high}
use rust_cardano_ouroboros_n.Prelude.Outcome.{ok, err, unsupported_version}
use rust_cardano_ouroboros_n.Cbor.{Value, nil, ◌▸◌, integer, bool, array}
use rust_cardano_ouroboros_n.Handshake.Versions.{
  Version, n2n, c2n, version_to_values, version_of_values, from_u16, to_u16,
}

-- The versions that can be proposed: node-to-node 1 to 7 and client-to-node 1 to 9.
abbrev pub IsSupported : Version → Type 0
IsSupported (n2n (pos n)) = (1 ≤ n) × (n ≤ 7)
IsSupported (c2n (pos n)) = (1 ≤ n) × (n ≤ 9)
IsSupported _ = ⊥

-- The number under which a version stands in a proposal.
abbrev pub key : Version → ℕ
key (n2n (pos n)) = n
key (c2n (pos n)) = n + 0x8000
key _ = 0

-- The parameters that stand with it.
abbrev pub parameters : Version → ℕ → Value
parameters (n2n (pos n)) magic =
    if ltb n 4 then integer (pos magic) else array (integer (pos magic) ▸ bool false ▸ nil)
parameters _ magic = integer (pos magic)

pub version_to_values-of_IsSupported :
    (v : Version) (magic : ℕ)
    → IsSupported v
    → version_to_values v magic ≡ ok (integer (pos (key v)), parameters v magic)
unfolding version_to_values
version_to_values-of_IsSupported (n2n (pos n)) magic h = ground arith
version_to_values-of_IsSupported (c2n (pos n)) magic h =
    rw (flip_top_low n (omega arith)) (ground arith)
version_to_values-of_IsSupported (n2n (negsuc n)) magic h = absurd h
version_to_values-of_IsSupported (c2n (negsuc n)) magic h = absurd h

pub version_of_values-key :
    (v : Version) (magic : ℕ)
    → IsSupported v
    → IsU32 magic
    → version_of_values (integer (pos (key v))) (parameters v magic) ≡ ok (v, magic)
unfolding version_of_values
version_of_values-key (n2n (pos n)) magic h hm = ground arith
version_of_values-key (c2n (pos n)) magic h hm = ground (arith, flip_top_high n)
version_of_values-key (n2n (negsuc n)) magic h hm = absurd h
version_of_values-key (c2n (negsuc n)) magic h hm = absurd h

version_to_values-unsupported :
    (v : Version) (magic : ℕ)
    → ¬ IsSupported v
    → version_to_values v magic ≡ err unsupported_version
unfolding version_to_values
version_to_values-unsupported (n2n (pos n)) magic h = ground arith
version_to_values-unsupported (c2n (pos n)) magic h = ground arith
version_to_values-unsupported (n2n (negsuc n)) magic h = refl
version_to_values-unsupported (c2n (negsuc n)) magic h = refl

-- The versions that a 16-bit word can carry: numbers below 2 ^ 15.
abbrev pub FitsWord : Version → Type 0
FitsWord (n2n (pos n)) = n < 0x8000
FitsWord (c2n (pos n)) = n < 0x8000
FitsWord _ = ⊥

pub to_u16-key : (v : Version) → FitsWord v → to_u16 v ≡ ok (key v)
unfolding to_u16
to_u16-key (n2n (pos n)) h = ground arith
to_u16-key (c2n (pos n)) h = ground (arith, flip_top_low n)
to_u16-key (n2n (negsuc n)) h = absurd h
to_u16-key (c2n (negsuc n)) h = absurd h

pub key-lt : (v : Version) → FitsWord v → key v < 2 ^ 16
key-lt (n2n (pos n)) h = omega arith
key-lt (c2n (pos n)) h = omega arith
key-lt (n2n (negsuc n)) h = absurd h
key-lt (c2n (negsuc n)) h = absurd h

pub from_u16-key : (v : Version) → FitsWord v → from_u16 (key v) ≡ v
unfolding from_u16
from_u16-key (n2n (pos n)) h = rw (has_top_low n h)
from_u16-key (c2n (pos n)) h = rw (has_top_high n h, flip_top_high n h)
from_u16-key (n2n (negsuc n)) h = absurd h
from_u16-key (c2n (negsuc n)) h = absurd h

-- A version whose number is below 2 ^ 15 has a 16-bit form, from which it is read back, and every
-- 16-bit word is the form of the version that is read from it.
pub from_u16-to_u16 :
    ((v : Version) → FitsWord v → (w : ℕ) × (to_u16 v ≡ ok w) × (w < 2 ^ 16) × (from_u16 w ≡ v))
    × ((w : ℕ) → IsU16 w → to_u16 (from_u16 w) ≡ ok w)
from_u16-to_u16 = ((λ v h. (key v, to_u16-key v h, key-lt v h, from_u16-key v h)), back)
  where
    back : (w : ℕ) → IsU16 w → to_u16 (from_u16 w) ≡ ok w
    back w h = elim (dec_lt w 0x8000) [
      | yes low ↦ ap to_u16 (from_u16-key (n2n (pos w)) low) ∙ to_u16-key (n2n (pos w)) low
      | no high ↦
          let rest = w - 0x8000 in
          let small : rest < 0x8000 = omega arith in
          let e : w ≡ rest + 0x8000 = omega arith in
          rw e (ap to_u16 (from_u16-key (c2n (pos rest)) small) ∙ to_u16-key (c2n (pos rest)) small)
    ]

-- A version is proposed exactly when it is a supported one; then its entry is read back with its
-- magic, if that fits 32 bits, and any other version is refused as unsupported.
pub version_of_values-version_to_values :
    (v : Version) (magic : ℕ)
    → IsU32 magic
    → (IsSupported v
        → (version_to_values v magic ≡ ok (integer (pos (key v)), parameters v magic))
          × (version_of_values (integer (pos (key v))) (parameters v magic) ≡ ok (v, magic)))
      × (¬ IsSupported v → version_to_values v magic ≡ err unsupported_version)
version_of_values-version_to_values v magic hm = (
  (λ h. (version_to_values-of_IsSupported v magic h, version_of_values-key v magic h hm)),
  version_to_values-unsupported v magic,
)
