-- ===== src/Header/RoundTrip.antt =====
-- A header that was wrapped is read back from its bytes, up to the hash, which is computed.
use rust_cardano_ouroboros_n.Prelude.{◌≡◌, refl, ◌∙◌, arith}
use rust_cardano_ouroboros_n.Prelude.Int.{as_i64-of_IsI64}
use rust_cardano_ouroboros_n.Prelude.Outcome.{ok}
use rust_cardano_ouroboros_n.Model.{Bytes, BlockHeader, IsHeader}
use rust_cardano_ouroboros_n.Cbor.{Codec, IsCodec, array}
use rust_cardano_ouroboros_n.Values.{consume}
use rust_cardano_ouroboros_n.Header.{
  WrappedBlockHeader, hash, header_to_values, read_header, header_of_wrapped, wrapped_of_header,
}

-- The values of a header are read as that header, with the given hash in place of its own.
read_header-header_to_values :
    (digest : Bytes) (h : BlockHeader)
    → IsHeader h
    → consume (read_header digest) (header_to_values h) ≡ ok (record h { hash = digest })
unfolding read_header header_to_values
read_header-header_to_values digest h r = rw (
  as_i64-of_IsI64 h.block_number r.block_range,
  as_i64-of_IsI64 h.slot_number r.slot_range,
  as_i64-of_IsI64 h.block_size r.size_range,
  as_i64-of_IsI64 h.unknown_0 r.unknown_0_range,
  as_i64-of_IsI64 h.unknown_1 r.unknown_1_range,
  as_i64-of_IsI64 h.protocol_major_version r.major_range,
  as_i64-of_IsI64 h.protocol_minor_version r.minor_range,
)

wrapped_of_header-bytes :
    (codec : Codec) (h : BlockHeader) {w : WrappedBlockHeader}
    → wrapped_of_header codec h ≡ ok w
    → codec.value_to_vec (array (header_to_values h)) ≡ ok w.bytes
unfolding wrapped_of_header
wrapped_of_header-bytes codec h e = ground arith

-- What is wrapped is unwrapped with the computed hash.
header_of_wrapped-wrapped_of_header :
    (codec : Codec) (laws : IsCodec codec) (blake2b : Bytes → Bytes) (h : BlockHeader)
    {w : WrappedBlockHeader}
    → IsHeader h
    → wrapped_of_header codec h ≡ ok w
    → header_of_wrapped codec blake2b w ≡ ok (record h { hash = hash blake2b w })
unfolding header_of_wrapped
header_of_wrapped-wrapped_of_header codec laws blake2b h {w} r e =
    let read = laws.slice_round_trip _ _ (wrapped_of_header-bytes codec h e) in
    rw read (read_header-header_to_values (hash blake2b w) h r)

-- The bytes of a header do not depend on the hash that it holds.
wrapped_of_header-hash :
    (codec : Codec) (h : BlockHeader) (b : Bytes)
    → wrapped_of_header codec (record h { hash = b }) ≡ wrapped_of_header codec h
unfolding wrapped_of_header header_to_values
wrapped_of_header-hash codec h b = refl

-- If the encoder accepts a header whose numbers are in the range of `i64`, then the header that holds the
-- digest of its wrapped bytes as its hash is wrapped to the same bytes, and unwrapping them gives exactly
-- that header back: the hash is no part of the bytes, and everything else is.
pub header_of_wrapped-hashed :
    (codec : Codec) (laws : IsCodec codec) (blake2b : Bytes → Bytes) (h : BlockHeader)
    {w : WrappedBlockHeader}
    → IsHeader h
    → wrapped_of_header codec h ≡ ok w
    → let hashed = record h { hash = hash blake2b w } in
      (wrapped_of_header codec hashed ≡ ok w) × (header_of_wrapped codec blake2b w ≡ ok hashed)
header_of_wrapped-hashed codec laws blake2b h {w} r e = (
  wrapped_of_header-hash codec h (hash blake2b w) ∙ e,
  header_of_wrapped-wrapped_of_header codec laws blake2b h r e,
)
