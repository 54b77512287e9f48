-- ===== src/Handshake/Examples.antt =====
-- Concrete handshakes, and the theorems at concrete inputs.
use rust_cardano_ouroboros_n.Prelude.{◌≡◌, ◌≢◌, refl, List, [], ◌∷◌, take, drop, none, arith}
use rust_cardano_ouroboros_n.Prelude.Int.{pos}
use rust_cardano_ouroboros_n.Prelude.Outcome.{ok, err, handshake_failed, unsupported_version}
use rust_cardano_ouroboros_n.Model.{Bytes}
use rust_cardano_ouroboros_n.Cbor.{Items, nil, ◌▸◌, integer, text, array}
use rust_cardano_ouroboros_n.Cbor.Sample.{sample, sample-IsCodec}
use rust_cardano_ouroboros_n.Values.{from_vec}
use rust_cardano_ouroboros_n.Protocol.{client, server}
use rust_cardano_ouroboros_n.Protocol.Stream.{encode}
use rust_cardano_ouroboros_n.Handshake.{
  channel_id, protocol_id, Handshake, propose, propose_versions, from_iter, to_values, proposals,
  negotiate,
}
use rust_cardano_ouroboros_n.Handshake.Versions.{Version, n2n, version_to_values, version_of_values}
use rust_cardano_ouroboros_n.Handshake.Versions.RoundTrip.{
  version_of_values-version_to_values, IsSupported, key, parameters,
}
use rust_cardano_ouroboros_n.Handshake.Messages.{
  IsOrdered, accept_items, to_values-propose_versions, from_iter-to_values_handshake,
}
use rust_cardano_ouroboros_n.Handshake.{Negotiation}
use rust_cardano_ouroboros_n.Handshake.Machine.{ready}
use rust_cardano_ouroboros_n.Handshake.Refusal.{negotiate-refused}
use rust_cardano_ouroboros_n.Handshake.Builder.{
  Call, sets_magic, sets_node_to_node, sets_client_to_node, mode_of, build-configure,
  negotiate-configure,
}
use rust_cardano_ouroboros_n.Handshake.Agreement.{Returns, proposal_items}

abbrev six : Version
six = n2n (pos 6)

abbrev seven : Version
seven = n2n (pos 7)

abbrev node : Handshake
node = record {
  role = client;
  versions = six ∷ seven ∷ [];
  network_magic = 9;
  state = propose;
  version = none;
}

abbrev peer : Handshake
peer = record node { role = server }

abbrev proposal : Items
proposal = proposal_items (six ∷ seven ∷ []) 9

-- A refusal as the crate writes it.
abbrev refusal : Items
refusal = integer (pos 1) ▸ array (integer (pos 2) ▸ integer (pos 0) ▸ text "Refused." ▸ nil) ▸ nil

abbrev acceptance : Items
acceptance = accept_items seven 9

node-IsOrdered : IsOrdered (proposals node.versions 9)
node-IsOrdered = (
  (omega arith, omega arith),
  omega arith,
  (omega arith, tt),
  ((omega arith, omega arith), omega arith, tt, tt),
)

abbrev cut_at_nine : Items → List Bytes
cut_at_nine values = take 9 (encode sample values) ∷ drop 9 (encode sample values) ∷ []

version_of_values-version_to_values_example :
    (IsSupported seven
      → (version_to_values seven 9 ≡ ok (integer (pos (key seven)), parameters seven 9))
        × (version_of_values (integer (pos (key seven))) (parameters seven 9) ≡ ok (seven, 9)))
    × (¬ IsSupported seven → version_to_values seven 9 ≡ err unsupported_version)
version_of_values-version_to_values_example =
    version_of_values-version_to_values seven 9 (omega arith)

from_iter-to_values_handshake_example :
    (values : Items) × (to_values sample.key_compare (propose_versions (proposals node.versions 9))
      ≡ ok values)
    × (from_iter (from_vec values) ≡ ok (propose_versions (proposals node.versions 9)))
from_iter-to_values_handshake_example =
    from_iter-to_values_handshake sample sample-IsCodec
      (propose_versions (proposals node.versions 9)) node-IsOrdered

negotiate-refused_example :
    negotiate sample 2 node (ready (encode sample refusal ∷ []) []) ≡ Negotiation.panicked
unfolding to_values
negotiate-refused_example =
    negotiate-refused sample sample-IsCodec node [] [] 2 proposal refusal refl refl
      (to_values-propose_versions sample sample-IsCodec _ node-IsOrdered, refl) (refl, refl)
      (omega arith)

-- A client of a builder that changes its mind, and a server of another.
abbrev calls : List Call
calls = sets_client_to_node ∷ sets_magic 9 ∷ sets_node_to_node ∷ []

abbrev other_calls : List Call
other_calls = sets_magic 9 ∷ []

negotiate-configure_example :
    Returns (negotiate sample 6 peer (ready (cut_at_nine proposal) [])) (ok (seven, 9))
    × (mode_of calls ≡ mode_of other_calls
        → Returns (negotiate sample 6 node (ready (cut_at_nine acceptance) [])) (ok (seven, 9)))
    × (mode_of calls ≢ mode_of other_calls
        → Returns
            (negotiate sample 6 node (ready (cut_at_nine acceptance) []))
            (err handshake_failed))
negotiate-configure_example =
    negotiate-configure sample sample-IsCodec calls other_calls (cut_at_nine proposal)
      (cut_at_nine acceptance) 6 (build-configure calls).0 (build-configure other_calls).1
      (tt, (omega arith, (tt, tt))) refl refl refl ((λ e. cc), ((λ e. cc), tt))
      ((λ e. cc), ((λ e. cc), tt)) refl refl (omega arith)

-- The channel that `build` opens is the one that `protocol_id` names.
channel_id_agrees : (channel_id client ≡ protocol_id node) × (channel_id server ≡ protocol_id peer)
unfolding channel_id protocol_id
channel_id_agrees = (refl, refl)
