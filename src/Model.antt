-- ===== src/Model.antt =====
-- src/model.rs: points, tips and block headers. A `Vec<u8>` is a list of numbers; `u64` fields are
-- natural numbers and `i64` fields integers, whose ranges are hypotheses where they matter.
use rust_cardano_ouroboros_n.Prelude.{ℕ, List}
use rust_cardano_ouroboros_n.Prelude.Int.{ℤ, IsU64, IsI64}
use rust_cardano_ouroboros_n.Prelude.Outcome.{Outcome, ok, err, panic, bad_hash}

abbrev pub Bytes : Type 0
Bytes = List ℕ

pub record Point : Type 0 where
  pub slot : ℕ
  pub hash : Bytes

pub record Tip : Type 0 where
  pub block_number : ℤ
  pub slot_number : ℕ
  pub hash : Bytes

pub record BlockHeader : Type 0 where
  pub block_number : ℤ
  pub slot_number : ℤ
  pub hash : Bytes
  pub prev_hash : Bytes
  pub node_vkey : Bytes
  pub node_vrf_vkey : Bytes
  pub eta_vrf_0 : Bytes
  pub eta_vrf_1 : Bytes
  pub leader_vrf_0 : Bytes
  pub leader_vrf_1 : Bytes
  pub block_size : ℤ
  pub block_body_hash : Bytes
  pub pool_opcert : Bytes
  pub unknown_0 : ℤ
  pub unknown_1 : ℤ
  pub unknown_2 : Bytes
  pub protocol_major_version : ℤ
  pub protocol_minor_version : ℤ

-- `Tip` into `Point`.
pub tip_into_point : Tip → Point
tip_into_point tip = record { slot = tip.slot_number; hash = tip.hash }

-- `(u64, &[u8])` into `Point`.
unfoldable pub point_from : ℕ → Bytes → Point
point_from slot hash = record { slot = slot; hash = hash }

-- `(u64, &str)` into `Point`, over the hex decoder of the `hex` crate.
pub point_try_from {ℓ} : {Text : Type ℓ} → (Text → Outcome Bytes) → ℕ → Text → Outcome Point
point_try_from decode slot hash = elim (decode hash) [
  | ok bytes ↦ ok (record { slot = slot; hash = bytes })
  | err e ↦ err bad_hash
  | panic ↦ panic
]

-- What the fields' Rust types guarantee.
pub record IsPoint (p : Point) : Type 0 where
  pub slot_range : IsU64 p.slot

pub record IsTip (t : Tip) : Type 0 where
  pub slot_range : IsU64 t.slot_number
  pub block_range : IsI64 t.block_number

pub record IsHeader (h : BlockHeader) : Type 0 where
  pub block_range : IsI64 h.block_number
  pub slot_range : IsI64 h.slot_number
  pub size_range : IsI64 h.block_size
  pub unknown_0_range : IsI64 h.unknown_0
  pub unknown_1_range : IsI64 h.unknown_1
  pub major_range : IsI64 h.protocol_major_version
  pub minor_range : IsI64 h.protocol_minor_version
