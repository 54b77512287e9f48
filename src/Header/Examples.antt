-- ===== src/Header/Examples.antt =====
-- A concrete block header, and the theorem on headers at it.
use rust_cardano_ouroboros_n.Prelude.{◌≡◌, refl, [], ◌∷◌, take, arith}
use rust_cardano_ouroboros_n.Prelude.Int.{pos}
use rust_cardano_ouroboros_n.Prelude.Outcome.{ok}
use rust_cardano_ouroboros_n.Model.{BlockHeader, IsHeader}
use rust_cardano_ouroboros_n.Cbor.{array}
use rust_cardano_ouroboros_n.Cbor.Sample.{sample, sample-IsCodec, write}
use rust_cardano_ouroboros_n.Header.{
  WrappedBlockHeader, hash, header_to_values, header_of_wrapped, wrapped_of_header,
}
use rust_cardano_ouroboros_n.Header.RoundTrip.{header_of_wrapped-hashed}

abbrev header : BlockHeader
header = record {
  block_number = pos 1;
  slot_number = pos 2;
  hash = 3 ∷ [];
  prev_hash = 4 ∷ [];
  node_vkey = 5 ∷ [];
  node_vrf_vkey = 6 ∷ [];
  eta_vrf_0 = 7 ∷ [];
  eta_vrf_1 = 8 ∷ [];
  leader_vrf_0 = 9 ∷ [];
  leader_vrf_1 = 10 ∷ [];
  block_size = pos 11;
  block_body_hash = 12 ∷ [];
  pool_opcert = 13 ∷ [];
  unknown_0 = pos 14;
  unknown_1 = pos 15;
  unknown_2 = 16 ∷ [];
  protocol_major_version = pos 17;
  protocol_minor_version = pos 18;
}

header-IsHeader : IsHeader header
header-IsHeader = record {
  block_range = omega arith;
  slot_range = omega arith;
  size_range = omega arith;
  unknown_0_range = omega arith;
  unknown_1_range = omega arith;
  major_range = omega arith;
  minor_range = omega arith;
}

abbrev wrapped : WrappedBlockHeader
wrapped = record { bytes = write (array (header_to_values header)) [] }

header_of_wrapped-hashed_example :
    let hashed = record header { hash = hash (λ b. take 2 b) wrapped } in
    (wrapped_of_header sample hashed ≡ ok wrapped)
    × (header_of_wrapped sample (λ b. take 2 b) wrapped ≡ ok hashed)
unfolding wrapped_of_header header_to_values
header_of_wrapped-hashed_example =
    header_of_wrapped-hashed sample sample-IsCodec (λ b. take 2 b) header header-IsHeader refl
