-- ===== src/Prelude/Outcome.antt =====
-- What fallible Rust code gives: a value, an error that `?` passes on, or a panic.
-- The crate's errors are strings. Here each message has a constructor of its own.
use mathlib.Core.Option.{Option, none, some}

pub data Error : Type 0 where
  array_required map_required integer_required bool_required bytes_required : Error
  end_required unexpected unexpected_message unexpected_state unsupported_state : Error
  unsupported_version version_required magic_required parameters_required false_expected : Error
  no_versions handshake_failed first_required last_required bad_hash cbor_error could_not_connect :
      Error

pub data Outcome {ℓ} (A : Type ℓ) : Type ℓ where
  ok : A → Outcome A
  err : Error → Outcome A
  panic : Outcome A

infixl 5 ◌>>=◌ ◌>>◌
abbrev pub ◌>>=◌ {ℓ κ} : {A : Type ℓ} {B : Type κ} → Outcome A → (A → Outcome B) → Outcome B
ok a >>= f = f a
err e >>= f = err e
panic >>= f = panic

abbrev pub ◌>>◌ {ℓ} : {B : Type ℓ} → Outcome (Unit {0}) → Outcome B → Outcome B
m >> k = m >>= λ _. k

-- `.unwrap()` on a result and on an option.
abbrev pub unwrap {ℓ} : {A : Type ℓ} → Outcome A → Outcome A
unwrap (ok a) = ok a
unwrap (err e) = panic
unwrap panic = panic

abbrev pub unwrap_option {ℓ} : {A : Type ℓ} → Option A → Outcome A
unwrap_option none = panic
unwrap_option (some a) = ok a

-- `.ok_or(e)`.
abbrev pub ok_or {ℓ} : {A : Type ℓ} → Option A → Error → Outcome A
ok_or none e = err e
ok_or (some a) e = ok a
