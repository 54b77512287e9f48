-- ===== src/Programs/Opening.antt =====
-- The handshake at the start of the example programs.
use rust_cardano_ouroboros_n.Prelude.{
  ℕ, ◌+◌, ◌<◌, ◌≡◌, ◌≢◌, refl, sym, ap, ◌∙◌, List, [], ◌∷◌, append-nil, All, length, concat,
}
use rust_cardano_ouroboros_n.Prelude.Int.{IsU32}
use rust_cardano_ouroboros_n.Prelude.Outcome.{ok, handshake_failed}
use rust_cardano_ouroboros_n.Model.{Bytes}
use rust_cardano_ouroboros_n.Cbor.{Codec, IsCodec}
use rust_cardano_ouroboros_n.Protocol.{client}
use rust_cardano_ouroboros_n.Protocol.Stream.{encode, IsWritable}
use rust_cardano_ouroboros_n.Handshake.{
  HandshakeBuilder, State, build, channel_id, negotiate, negotiated, outcome_of, find_version,
}
use rust_cardano_ouroboros_n.Handshake.Versions.{Version}
use rust_cardano_ouroboros_n.Handshake.Versions.RoundTrip.{FitsWord}
use rust_cardano_ouroboros_n.Handshake.Messages.{accept_items, to_values-propose_versions}
use rust_cardano_ouroboros_n.Handshake.Machine.{ready, negotiate-client, negotiate-silent}
use rust_cardano_ouroboros_n.Handshake.Agreement.{Has, find_version-Has, proposal_items}
use rust_cardano_ouroboros_n.Handshake.Builder.{
  Mode, with_peers, with_clients, versions_of, fresh, proposals-IsOrdered,
}
use rust_cardano_ouroboros_n.Programs.{
  finished, failed, waits, after_build, after_negotiate, negotiate_as, peer_builder, local_builder,
}

-- The builder of a mode in the programs.
abbrev pub builder_of : Mode → ℕ → HandshakeBuilder
builder_of with_peers = peer_builder
builder_of with_clients = local_builder

build-builder_of :
    (mode : Mode) (magic : ℕ) → build (builder_of mode magic) client ≡ ok (fresh mode magic client)
unfolding build channel_id peer_builder local_builder
build-builder_of with_peers magic = refl
build-builder_of with_clients magic = refl

module _ (codec : Codec) (laws : IsCodec codec) (mode : Mode) (magic : ℕ) (v : Version)
    (pieces : List Bytes) (fuel : ℕ) where
  -- A program that shakes hands as a client, and hears a version accepted in any pieces that are not
  -- empty, goes on with it if it is one of those of its mode, and fails if not. The version fits 16 bits
  -- and the magic 32, the encoder accepts both messages, and fuel is two turns more than pieces.
  pub negotiate_as-accept :
      FitsWord v
      → IsU32 magic
      → IsWritable codec (proposal_items (versions_of mode) magic)
      → IsWritable codec (accept_items v magic)
      → All (λ piece. piece ≢ []) pieces
      → concat pieces ≡ encode codec (accept_items v magic)
      → length pieces + 1 < fuel
      → let run = negotiate_as codec client (builder_of mode magic) fuel (ready pieces []) in
        (Has v (versions_of mode) → run ≡ finished (v, magic))
        × (¬ Has v (versions_of mode) → run ≡ failed handshake_failed)
  unfolding negotiate_as
  negotiate_as-accept fv hm wp wa np c lt = (
    (λ h. run ∙ rw ((find_version-Has v (versions_of mode)).0 h)),
    (λ n. run ∙ rw ((find_version-Has v (versions_of mode)).1 n)),
  )
    where
      run :
          negotiate_as codec client (builder_of mode magic) fuel (ready pieces [])
          ≡ after_negotiate (
              negotiated
                (outcome_of (find_version v (versions_of mode)) magic)
                (record (fresh mode magic client) {
                  state = State.done;
                  version = find_version v (versions_of mode);
                })
                (ready [] (encode codec (proposal_items (versions_of mode) magic) ∷ [])))
      run =
          ap (after_build codec fuel (ready pieces [])) (build-builder_of mode magic)
          ∙ ap after_negotiate (
              ap (λ inbox. negotiate codec fuel (fresh mode magic client) (ready inbox []))
                (sym (append-nil pieces))
              ∙ negotiate-client codec laws (fresh mode magic client) pieces [] [] fuel
                  (proposal_items (versions_of mode) magic) v refl refl
                  (to_values-propose_versions codec laws _ (proposals-IsOrdered mode magic hm), wp)
                  fv hm wa np c lt)

-- A program that shakes hands as a client, and hears nothing, waits.
pub negotiate_as-silent :
    (codec : Codec) (laws : IsCodec codec) (mode : Mode) (magic fuel : ℕ)
    → IsU32 magic
    → IsWritable codec (proposal_items (versions_of mode) magic)
    → 1 < fuel
    → negotiate_as codec client (builder_of mode magic) fuel (ready [] []) ≡ waits
unfolding negotiate_as
negotiate_as-silent codec laws mode magic fuel hm wp lt =
    ap (after_build codec fuel (ready [] [])) (build-builder_of mode magic)
    ∙ ap after_negotiate (
        negotiate-silent codec (fresh mode magic client) [] fuel
          (proposal_items (versions_of mode) magic) refl refl
          (to_values-propose_versions codec laws _ (proposals-IsOrdered mode magic hm), wp) lt)
