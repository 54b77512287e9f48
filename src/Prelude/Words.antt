-- ===== src/Prelude/Words.antt =====
-- The top bit of a 16-bit word: `x ^ 0x8000` and `x & 0x8000` as arithmetic, by tables over all
-- 65536 words.
use Prim.Native.Nat.{ℕ, zero, suc, ◌+◌, ◌-◌, ◌^◌, ◌<◌, bit_xor, bit_and}
use mathlib.Core.Path.{◌≡◌, refl}
use mathlib.Core.Bool.{Bool, true, ◌&&◌}
use native.Mathlib.Omega.{arith}
use native.Mathlib.Decide.{dec_lt}
use rust_cardano_ouroboros_n.Prelude.Tests.{ltb, ◌==◌, ==_iff, if◌then◌else◌}

-- `x ^ 0x8000`, and whether `x & 0x8000 != 0`.
abbrev pub flip_top : ℕ → ℕ
flip_top x = bit_xor x 0x8000

abbrev pub has_top : ℕ → Bool
has_top x = if bit_and x 0x8000 == 0 then Bool.false else true

-- A test that every word below a bound passes, computed.
holds_up_to : (ℕ → Bool) → ℕ → Bool
holds_up_to test zero = true
holds_up_to test (suc word) = holds_up_to test word && test word

holds_at :
    (test : ℕ → Bool) (bound word : ℕ)
    → word < bound
    → holds_up_to test bound ≡ true
    → test word ≡ true
unfolding holds_up_to
holds_at test zero word inside table = absurd (omega arith)
holds_at test (suc bound) word inside table = ground (arith, holds_at test bound word)

abbrev flipped : ℕ → ℕ
flipped x = if ltb x 0x8000 then x + 0x8000 else x - 0x8000

xor_table : holds_up_to (λ x. bit_xor x 0x8000 == flipped x) 65536 ≡ true
unfolding holds_up_to
xor_table = refl

abbrev kept_top : ℕ → ℕ
kept_top x = if ltb x 0x8000 then 0 else 0x8000

and_table : holds_up_to (λ x. bit_and x 0x8000 == kept_top x) 65536 ≡ true
unfolding holds_up_to
and_table = refl

xor-flipped : (x : ℕ) → x < 2 ^ 16 → bit_xor x 0x8000 ≡ flipped x
xor-flipped x h =
    (==_iff _ (flipped x)).0 (holds_at (λ y. bit_xor y 0x8000 == flipped y) 65536 x h xor_table)

and-kept_top : (x : ℕ) → x < 2 ^ 16 → bit_and x 0x8000 ≡ kept_top x
and-kept_top x h =
    (==_iff _ (kept_top x)).0 (holds_at (λ y. bit_and y 0x8000 == kept_top y) 65536 x h and_table)

pub flip_top_low : (x : ℕ) → x < 0x8000 → flip_top x ≡ x + 0x8000
flip_top_low x h = ground (arith, xor-flipped x)

pub flip_top_high : (x : ℕ) → x < 0x8000 → flip_top (x + 0x8000) ≡ x
flip_top_high x h = ground (arith, xor-flipped (x + 0x8000))

pub flip_top-lt : (x : ℕ) → x < 2 ^ 16 → flip_top x < 2 ^ 16
flip_top-lt x h = ground (arith, xor-flipped x)

pub flip_top-flip_top : (x : ℕ) → x < 2 ^ 16 → flip_top (flip_top x) ≡ x
flip_top-flip_top x h = elim (dec_lt x 0x8000) [
  | yes low ↦ rw (flip_top_low x low) (flip_top_high x low)
  | no high ↦
      let y = x - 0x8000 in
      let e : x ≡ y + 0x8000 = omega arith in
      rw (e, flip_top_high y (omega arith)) (flip_top_low y (omega arith))
]

pub has_top_low : (x : ℕ) → x < 0x8000 → has_top x ≡ Bool.false
has_top_low x h = ground (arith, and-kept_top x)

pub has_top_high : (x : ℕ) → x < 0x8000 → has_top (x + 0x8000) ≡ true
has_top_high x h = ground (arith, and-kept_top (x + 0x8000))
