-- ===== src/Header.antt =====
-- src/protocols.rs: block headers inside their CBOR wrapping. The hash function (`blake2b_simd` with
-- 32 bytes of output) and the CBOR library are parameters.
pub mod RoundTrip
mod Examples
use rust_cardano_ouroboros_n.Prelude.Int.{ℤ, pos, as_i64}
use rust_cardano_ouroboros_n.Prelude.Outcome
use rust_cardano_ouroboros_n.Prelude.Outcome.{Outcome, ok, err, panic, cbor_error}
use rust_cardano_ouroboros_n.Model.{Bytes, BlockHeader}
use rust_cardano_ouroboros_n.Cbor.{Codec, Items, Value, nil, ◌▸◌, integer, bytes, array}
use rust_cardano_ouroboros_n.Values.{
  Cursor, ◌>>=◌, ◌>>◌, pure, lift, consume, next_array, next_integer, next_bytes, end,
}

pub record WrappedBlockHeader : Type 0 where
  pub bytes : Bytes

-- `WrappedBlockHeader::hash`.
pub hash : (Bytes → Bytes) → WrappedBlockHeader → Bytes
hash blake2b wrapped = blake2b wrapped.bytes

read_wrapped : Cursor WrappedBlockHeader
unfolding next_integer next_bytes end
read_wrapped = do next_integer >>= λ _. next_bytes >>= λ b. end >> pure (record { bytes = b })

-- `TryInto<WrappedBlockHeader> for Values`.
unfoldable pub wrapped_of_values : Items → Outcome WrappedBlockHeader
unfolding read_wrapped
wrapped_of_values = consume read_wrapped

-- `array.array()?.try_into()?` for a wrapped header.
unfoldable pub next_wrapped : Cursor WrappedBlockHeader
unfolding next_array wrapped_of_values
next_wrapped = do values ← next_array; lift (wrapped_of_values values)

-- `array.integer()? as i64`.
next_i64 : Cursor ℤ
unfolding next_integer
next_i64 = next_integer >>= λ z. pure (as_i64 z)

-- The two byte strings of an `eta_vrf` or a `leader_vrf`.
record Pair : Type 0 where
  first : Bytes
  second : Bytes

read_vrf : Cursor Pair
unfolding next_bytes end
read_vrf = do a ← next_bytes; b ← next_bytes; end; pure (record { first = a; second = b })

next_vrf : Cursor Pair
unfolding next_array read_vrf
next_vrf = do values ← next_array; lift (consume read_vrf values)

-- The inner array, from the first value on.
read_fields : Bytes → Cursor BlockHeader
unfolding next_i64 next_bytes next_vrf end
read_fields digest = do
  block_number ← next_i64
  slot_number ← next_i64
  prev_hash ← next_bytes
  node_vkey ← next_bytes
  node_vrf_vkey ← next_bytes
  eta ← next_vrf
  leader ← next_vrf
  block_size ← next_i64
  block_body_hash ← next_bytes
  pool_opcert ← next_bytes
  unknown_0 ← next_i64
  unknown_1 ← next_i64
  unknown_2 ← next_bytes
  major ← next_i64
  minor ← next_i64
  end
  pure (record {
    block_number = block_number;
    slot_number = slot_number;
    hash = digest;
    prev_hash = prev_hash;
    node_vkey = node_vkey;
    node_vrf_vkey = node_vrf_vkey;
    eta_vrf_0 = eta.first;
    eta_vrf_1 = eta.second;
    leader_vrf_0 = leader.first;
    leader_vrf_1 = leader.second;
    block_size = block_size;
    block_body_hash = block_body_hash;
    pool_opcert = pool_opcert;
    unknown_0 = unknown_0;
    unknown_1 = unknown_1;
    unknown_2 = unknown_2;
    protocol_major_version = major;
    protocol_minor_version = minor;
  })

read_header : Bytes → Cursor BlockHeader
unfolding next_array read_fields end
read_header digest = do
  fields ← next_array
  header ← lift (consume (read_fields digest) fields)
  end
  pure header

-- `.map_err(|e| format!("{:?}", e))`.
abbrev map_err {ℓ} : {A : Type ℓ} → Outcome A → Outcome A
map_err (ok a) = ok a
map_err (err e) = err cbor_error
map_err panic = panic

-- The value that `try_from` serializes.
unfoldable pub header_to_values : BlockHeader → Items
header_to_values h = array fields ▸ nil
  where
    fields : Items
    fields =
        integer h.block_number
        ▸ integer h.slot_number
        ▸ bytes h.prev_hash
        ▸ bytes h.node_vkey
        ▸ bytes h.node_vrf_vkey
        ▸ array (bytes h.eta_vrf_0 ▸ bytes h.eta_vrf_1 ▸ nil)
        ▸ array (bytes h.leader_vrf_0 ▸ bytes h.leader_vrf_1 ▸ nil)
        ▸ integer h.block_size
        ▸ bytes h.block_body_hash
        ▸ bytes h.pool_opcert
        ▸ integer h.unknown_0
        ▸ integer h.unknown_1
        ▸ bytes h.unknown_2
        ▸ integer h.protocol_major_version
        ▸ integer h.protocol_minor_version
        ▸ nil

module _ (codec : Codec) where
  -- `TryInto<BlockHeader> for WrappedBlockHeader`.
  unfoldable pub header_of_wrapped : (Bytes → Bytes) → WrappedBlockHeader → Outcome BlockHeader
  unfolding hash read_header
  header_of_wrapped blake2b wrapped =
      Outcome.◌>>=◌ (map_err (codec.from_slice wrapped.bytes))
        λ value. consume (read_header (hash blake2b wrapped)) value

  -- `TryFrom<BlockHeader> for WrappedBlockHeader`.
  unfoldable pub wrapped_of_header : BlockHeader → Outcome WrappedBlockHeader
  unfolding header_to_values
  wrapped_of_header header =
      Outcome.◌>>=◌ (map_err (codec.value_to_vec (array (header_to_values header))))
        λ b. ok (record { bytes = b })
