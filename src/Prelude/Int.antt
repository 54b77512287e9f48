-- ===== src/Prelude/Int.antt =====
-- Signed integers and Rust's `as` casts out of `i128`.
use Prim.Native.Nat.{ℕ, ◌-◌, ◌%◌, ◌^◌, ◌<◌}
use mathlib.Core.Path.{◌≡◌}
use mathlib.Core.Bool.{Bool, false}
use native.Mathlib.Omega.{arith}
use rust_cardano_ouroboros_n.Prelude.Tests.{ltb, ◌==◌, if◌then◌else◌}

-- `negsuc n` is -(n + 1).
pub data ℤ : Type 0 where
  pos : ℕ → ℤ
  negsuc : ℕ → ℤ

-- `z as u16`, `z as u32`, `z as u64`: the value modulo a power of two.
abbrev pub wrap : ℕ → ℤ → ℕ
wrap modulus (pos n) = n % modulus
wrap modulus (negsuc n) = modulus - 1 - n % modulus

abbrev pub as_u16 : ℤ → ℕ
as_u16 = wrap (2 ^ 16)

abbrev pub as_u32 : ℤ → ℕ
as_u32 = wrap (2 ^ 32)

abbrev pub as_u64 : ℤ → ℕ
as_u64 = wrap (2 ^ 64)

-- The integer of a 64-bit pattern in two's complement.
abbrev pub signed64 : ℕ → ℤ
signed64 w = if ltb w (2 ^ 63) then pos w else negsuc (2 ^ 64 - 1 - w)

abbrev pub as_i64 : ℤ → ℤ
as_i64 z = signed64 (as_u64 z)

abbrev pub IsU16 : ℕ → Type 0
IsU16 n = n < 2 ^ 16

abbrev pub IsU32 : ℕ → Type 0
IsU32 n = n < 2 ^ 32

abbrev pub IsU64 : ℕ → Type 0
IsU64 n = n < 2 ^ 64

abbrev pub IsI64 : ℤ → Type 0
IsI64 (pos n) = n < 2 ^ 63
IsI64 (negsuc n) = n < 2 ^ 63

-- A value against a literal that is not negative.
abbrev pub is_tag : ℤ → ℕ → Bool
is_tag (pos n) k = n == k
is_tag (negsuc n) k = false

pub as_u16-pos : (n : ℕ) → IsU16 n → as_u16 (pos n) ≡ n
as_u16-pos n h = omega arith

pub as_u32-pos : (n : ℕ) → IsU32 n → as_u32 (pos n) ≡ n
as_u32-pos n h = omega arith

pub as_u64-pos : (n : ℕ) → IsU64 n → as_u64 (pos n) ≡ n
as_u64-pos n h = omega arith

pub as_i64-of_IsI64 : (z : ℤ) → IsI64 z → as_i64 z ≡ z
as_i64-of_IsI64 (pos n) h = ground arith
as_i64-of_IsI64 (negsuc n) h = ground arith

pub as_i64-IsI64 : (z : ℤ) → IsI64 (as_i64 z)
as_i64-IsI64 (pos n) = ground arith
as_i64-IsI64 (negsuc n) = ground arith
