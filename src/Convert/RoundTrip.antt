-- ===== src/Convert/RoundTrip.antt =====
-- Points and tips survive the trip through CBOR values, and what is accepted has that form.
use rust_cardano_ouroboros_n.Prelude.{◌≡◌, arith}
use rust_cardano_ouroboros_n.Prelude.Int.{ℤ, as_u64, as_i64, as_u64-pos, as_i64-of_IsI64}
use rust_cardano_ouroboros_n.Prelude.Outcome.{ok}
use rust_cardano_ouroboros_n.Model.{Point, Tip, IsPoint, IsTip}
use rust_cardano_ouroboros_n.Cbor.{Items, nil, ◌▸◌, integer, bytes, array}
use rust_cardano_ouroboros_n.Values.{from_vec}
use rust_cardano_ouroboros_n.Convert.{
  point_to_vec, point_of_values, tip_to_vec, tip_of_values, next_point, next_tip,
}

-- A point with a 64-bit slot is read back from its values.
pub point_of_values-point_to_vec :
    (p : Point) → IsPoint p → point_of_values (from_vec (point_to_vec p)) ≡ ok p
unfolding point_of_values point_to_vec
point_of_values-point_to_vec p h = rw (as_u64-pos p.slot h.slot_range)

-- A tip with a 64-bit slot and block number is read back from its values.
pub tip_of_values-tip_to_vec : (t : Tip) → IsTip t → tip_of_values (from_vec (tip_to_vec t)) ≡ ok t
unfolding tip_of_values tip_to_vec
tip_of_values-tip_to_vec t h =
    rw (as_u64-pos t.slot_number h.slot_range, as_i64-of_IsI64 t.block_number h.block_range)

pub next_point-array :
    (p : Point) (rest : Items)
    → IsPoint p
    → next_point (array (point_to_vec p) ▸ rest) ≡ (ok p, rest)
unfolding next_point
next_point-array p rest h = rw (point_of_values-point_to_vec p h)

pub next_tip-array :
    (t : Tip) (rest : Items) → IsTip t → next_tip (array (tip_to_vec t) ▸ rest) ≡ (ok t, rest)
unfolding next_tip
next_tip-array t rest h = rw (tip_of_values-tip_to_vec t h)

-- Values are accepted as a point exactly when they are an integer and bytes and nothing more, and
-- then the slot is the integer modulo 2 ^ 64.
pub point_of_values-eq-ok :
    (values : Items) {p : Point}
    → point_of_values values ≡ ok p
    → (z : ℤ) × (values ≡ integer z ▸ bytes p.hash ▸ nil) × (p.slot ≡ as_u64 z)
unfolding point_of_values
point_of_values-eq-ok (integer z ▸ bytes b ▸ nil) {p} h = (z, ground arith, ground arith)
point_of_values-eq-ok (integer z ▸ bytes b ▸ x ▸ r) {p} h = cc
point_of_values-eq-ok (integer z ▸ y ▸ r) {p} h = cc
point_of_values-eq-ok v {p} h = cc

-- Values are accepted as a tip exactly when they have the form that `tip_to_vec` writes, and then the
-- numbers are those read, in 64 bits without and with sign.
pub tip_of_values-eq-ok :
    (values : Items) {t : Tip}
    → tip_of_values values ≡ ok t
    → (z n : ℤ) × (values ≡ array (integer z ▸ bytes t.hash ▸ nil) ▸ integer n ▸ nil)
      × (t.slot_number ≡ as_u64 z)
      × (t.block_number ≡ as_i64 n)
unfolding tip_of_values
tip_of_values-eq-ok (array (integer z ▸ bytes b ▸ nil) ▸ integer n ▸ nil) {t} h =
    (z, n, ground arith, ground arith, ground arith)
tip_of_values-eq-ok v {t} h = cc
