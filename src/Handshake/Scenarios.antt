-- ===== src/Handshake/Scenarios.antt =====
-- src/protocols/handshake.rs, the tests `handshake_client_works` and `handshake_server_works`, for every
-- magic: the bytes that they write out, and the machine that meets them.
mod Examples
use rust_cardano_ouroboros_n.Prelude.{
  ℕ, suc, ◌+◌, ◌<◌, ◌≡◌, ◌≢◌, refl, sym, ap, ◌∙◌, inr, inl, false, List, [], ◌∷◌, append-nil, All,
  length, some, none, arith,
}
use Prim.Native.Nat.{compare}
use rust_cardano_ouroboros_n.Prelude.Int.{IsU32, pos}
use rust_cardano_ouroboros_n.Prelude.Outcome.{Outcome, ok, err, panic, unwrap}
use rust_cardano_ouroboros_n.Model.{Bytes}
use rust_cardano_ouroboros_n.Cbor.{
  Codec, IsCodec, Value, Items, Entries, no_entries, nil, ◌▸◌, integer, bool, array,
}
use rust_cardano_ouroboros_n.Protocol.{Agency, client, server, Channel}
use rust_cardano_ouroboros_n.Protocol.Stream.{encode, IsWritable, encode-ne-nil}
use rust_cardano_ouroboros_n.Handshake.{
  Handshake, State, HandshakeBuilder, builder, node_to_node, network_magic, channel_id, build,
  insert_entry, proposals, Negotiation, negotiated, panicked, negotiate,
}
use rust_cardano_ouroboros_n.Handshake.Versions.{n2n}
use rust_cardano_ouroboros_n.Handshake.Messages.{
  accept_items, to_values-propose_versions, from_iter-propose_versions,
}
use rust_cardano_ouroboros_n.Handshake.Machine.{ready, negotiate-client, negotiate_server}
use rust_cardano_ouroboros_n.Handshake.Agreement.{proposal_items, find_version-Has}
use rust_cardano_ouroboros_n.Handshake.Builder.{with_peers, versions_of, fresh, proposals-IsOrdered}

-- `Array(vec![Integer(magic.into()), Bool(false)])`.
abbrev entry_value : ℕ → Value
entry_value magic = array (integer (pos magic) ▸ bool false ▸ nil)

module _ (codec : Codec) where
  -- `propose` and `confirm` of the tests.
  abbrev proposed_map : ℕ → Entries
  proposed_map magic =
      insert_entry codec.key_compare (integer (pos 7)) (entry_value magic)
        (insert_entry codec.key_compare (integer (pos 6)) (entry_value magic) no_entries)

  unfoldable pub propose : ℕ → Outcome Bytes
  propose magic =
      unwrap (codec.value_to_vec (array (integer (pos 0) ▸ Value.map (proposed_map magic) ▸ nil)))

  unfoldable pub confirm : ℕ → Outcome Bytes
  confirm magic =
      unwrap
        (codec.value_to_vec (array (integer (pos 1) ▸ integer (pos 7) ▸ entry_value magic ▸ nil)))

  -- The machine of a test, at what the other end sends it.
  abbrev meets : Outcome Bytes → Outcome Handshake → ℕ → Negotiation
  meets (ok b) (ok s) fuel = negotiate codec fuel s (ready (b ∷ []) [])
  meets _ _ fuel = panicked

  unfoldable pub handshake_client_works : ℕ → ℕ → Negotiation
  unfolding confirm
  handshake_client_works magic fuel =
      meets (confirm magic) (build (network_magic magic (node_to_node builder)) client) fuel

  unfoldable pub handshake_server_works : ℕ → ℕ → Negotiation
  unfolding propose
  handshake_server_works magic fuel =
      meets (propose magic) (build (network_magic magic (node_to_node builder)) server) fuel

  module _ (laws : IsCodec codec)
      (same_writer : (vs : Items) → codec.value_to_vec (array vs) ≡ codec.items_to_vec vs)
      (magic fuel : ℕ) (small : IsU32 magic)
      (asks : IsWritable codec (proposal_items (versions_of with_peers) magic))
      (accepts : IsWritable codec (accept_items (n2n (pos 7)) magic)) where
    abbrev request : Bytes
    request = encode codec (proposal_items (versions_of with_peers) magic)

    abbrev answer : Bytes
    answer = encode codec (accept_items (n2n (pos 7)) magic)

    propose_lem : propose magic ≡ ok request
    unfolding propose insert_entry
    propose_lem = rw (laws.key_order 7 6, same_writer, asks)

    confirm_lem : confirm magic ≡ ok answer
    unfolding confirm
    confirm_lem = rw (same_writer, accepts)

    -- The tests of the handshake hold for every magic of 32 bits, where the encoder accepts both messages
    -- and writes an array as it writes its items, at fuel of four turns: the client sends the bytes that
    -- the test writes out for the proposal, and returns version 7 with the magic when it gets those for
    -- the acceptance; the server that gets the former sends the latter, and returns the same. Both are
    -- done.
    pub handshake_works :
        3 < fuel
        → (propose magic ≡ ok request)
          × (confirm magic ≡ ok answer)
          × (handshake_client_works magic fuel
              ≡ negotiated
                  (ok (n2n (pos 7), magic))
                  (record (fresh with_peers magic client) {
                    state = State.done;
                    version = some (n2n (pos 7));
                  })
                  (ready [] (request ∷ [])))
          × (handshake_server_works magic fuel
              ≡ negotiated
                  (ok (n2n (pos 7), magic))
                  (record (fresh with_peers magic server) {
                    state = State.done;
                    version = some (n2n (pos 7));
                  })
                  (ready [] (answer ∷ [])))
    unfolding handshake_client_works handshake_server_works build channel_id node_to_node
        network_magic builder
    handshake_works lt =
        let found = (find_version-Has (n2n (pos 7)) (versions_of with_peers)).0 (inr (inl refl)) in
        (
          propose_lem,
          confirm_lem,
          ap (λ o. meets o (ok (fresh with_peers magic client)) fuel) confirm_lem
              ∙ negotiate-client codec laws (fresh with_peers magic client) (answer ∷ []) [] [] fuel
                  (proposal_items (versions_of with_peers) magic) (n2n (pos 7)) refl refl
                  (
                    to_values-propose_versions codec laws _
                        (proposals-IsOrdered with_peers magic small),
                    asks,
                  )
                  (omega arith) small accepts (encode-ne-nil codec laws _ accepts, tt)
                  (append-nil _) (omega arith)
              ∙ rw found,
          ap (λ o. meets o (ok (fresh with_peers magic server)) fuel) propose_lem
              ∙ negotiate_server codec laws (fresh with_peers magic server) (request ∷ []) [] []
                  fuel (proposal_items (versions_of with_peers) magic) _ (n2n (pos 7)) refl refl
                  refl (omega arith)
                  (from_iter-propose_versions (proposals (versions_of with_peers) magic)
                    (proposals-IsOrdered with_peers magic small))
                  asks accepts (encode-ne-nil codec laws _ asks, tt) (append-nil _) (omega arith),
        )
