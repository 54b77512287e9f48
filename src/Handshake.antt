-- ===== src/Handshake.antt =====
-- src/protocols/handshake.rs: the builder, the messages and the machine of the version handshake.
pub mod Versions
pub mod Messages
pub mod Machine
pub mod Refusal
pub mod Agreement
pub mod Builder
pub mod Duplex
pub mod Scenarios
mod Examples
use Prim.Native.Nat.{Ordering}
use rust_cardano_ouroboros_n.Prelude.{
  ℕ, Bool, true, false, Option, none, some, List, [], ◌∷◌, ◌++◌, if◌then◌else◌, last?, map, ◌==◌,
}
use rust_cardano_ouroboros_n.Prelude.Int.{ℤ, pos, is_tag, as_u16, as_u32}
use rust_cardano_ouroboros_n.Prelude.Words.{flip_top}
use rust_cardano_ouroboros_n.Prelude.Outcome
use rust_cardano_ouroboros_n.Prelude.Outcome.{
  Outcome, ok, err, panic, unwrap, ok_or, unexpected, unexpected_message, no_versions,
  handshake_failed,
}
use rust_cardano_ouroboros_n.Cbor.{
  Codec, Value, Items, Entries, nil, ◌▸◌, no_entries, entry, integer, bool, text, array,
  map as map_value,
}
use rust_cardano_ouroboros_n.Values.{
  Cursor, ◌>>=◌, ◌>>◌, pure, lift, consume, next_integer, next_bool, next_array, next_map,
}
use rust_cardano_ouroboros_n.Protocol.{
  Agency, client, server, Protocol, Channel, Execution, finished, to_bytes_default, execute,
}
use Versions.{
  Version, n2n, c2n, same_version, version_to_values, version_of_values, from_u16, to_u16,
}

pub data State : Type 0 where
  propose confirm done : State

pub data Message : Type 0 where
  propose_versions : List (Version × ℕ) → Message
  accept_version : Version → ℕ → Message
  refuse : Message

-- `.iter().map(…).collect::<Result<Vec<_>, _>>()` over the entries of a map.
unfoldable pub read_versions : Entries → Outcome (List (Version × ℕ))
read_versions no_entries = ok []
read_versions (entry key value rest) =
    Outcome.◌>>=◌ (version_of_values key value)
      λ v. Outcome.◌>>=◌ (read_versions rest) λ vs. ok (v ∷ vs)

-- `assert_eq!(_false, false)`.
abbrev assert_false : Bool → Outcome (Unit {0})
assert_false false = ok tt
assert_false true = panic

-- The items of an accepted version.
read_accepted : Cursor ℕ
unfolding next_integer next_bool
read_accepted = do
  magic ← next_integer
  flag ← next_bool
  lift (assert_false flag)
  pure (as_u32 magic)

-- What stands behind the tag. The rest of the array is not looked at.
read_body : ℤ → Cursor Message
unfolding next_integer next_array next_map read_accepted
read_body tag =
    if is_tag tag 0
    then (do
      entries ← next_map
      versions ← lift (read_versions entries)
      pure (propose_versions versions))
    else if is_tag tag 1
    then (do
      version ← next_integer
      items ← next_array
      magic ← lift (consume read_accepted items)
      pure (accept_version (from_u16 (as_u16 version)) magic))
    else if is_tag tag 2
    then (do reason ← next_array; pure refuse)
    else lift (err unexpected)

read_message : Cursor Message
unfolding next_integer read_body
read_message = do tag ← next_integer; read_body tag

-- `Message::from_iter`.
unfoldable pub from_iter : Items → Outcome Message
unfolding read_message
from_iter = consume read_message

module _ (compare_keys : Value → Value → Ordering) where
  -- `BTreeMap::insert`: in the order of the keys, and over the value of an equal key.
  unfoldable pub insert_entry : Value → Value → Entries → Entries
  insert_entry k v no_entries = entry k v no_entries
  insert_entry k v (entry j w rest) = elim (compare_keys k j) [
    | Ordering.lt ↦ entry k v (entry j w rest)
    | Ordering.eq ↦ entry j v rest
    | Ordering.gt ↦ entry j w (insert_entry k v rest)
  ]

  -- `.map(|(v, m)| v.to_values(*m).unwrap()).collect()`.
  unfoldable pub collect : List (Version × ℕ) → Entries → Outcome Entries
  collect [] entries = ok entries
  collect ((v, m) ∷ vs) entries =
      Outcome.◌>>=◌ (unwrap (version_to_values v m))
        λ kv. collect vs (insert_entry kv.0 kv.1 entries)

  -- `Message::to_values`.
  unfoldable pub to_values : Message → Outcome Items
  to_values (propose_versions versions) =
      Outcome.◌>>=◌ (collect versions no_entries)
        λ entries. ok (integer (pos 0) ▸ map_value entries ▸ nil)
  to_values (accept_version version magic) = Outcome.◌>>=◌ (to_u16 version) λ v.
      ok (integer (pos 1) ▸ integer (pos v) ▸ array (integer (pos magic) ▸ bool false ▸ nil) ▸ nil)
  to_values refuse =
      ok (integer (pos 1) ▸ array (integer (pos 2) ▸ integer (pos 0) ▸ text "Refused." ▸ nil) ▸ nil)

pub record HandshakeBuilder : Type 0 where
  pub versions : List Version
  pub magic : ℕ

abbrev node_versions : List Version
node_versions = n2n (pos 6) ∷ n2n (pos 7) ∷ []

unfoldable pub builder : HandshakeBuilder
builder = record { versions = node_versions; magic = 0 }

unfoldable pub network_magic : ℕ → HandshakeBuilder → HandshakeBuilder
network_magic magic b = record b { magic = magic }

unfoldable pub node_to_node : HandshakeBuilder → HandshakeBuilder
node_to_node b = record b { versions = node_versions }

unfoldable pub client_to_node : HandshakeBuilder → HandshakeBuilder
client_to_node b = record b { versions = c2n (pos 9) ∷ [] }

-- `Handshake`, its channel apart.
pub record Handshake : Type 0 where
  pub role : Agency
  pub versions : List Version
  pub network_magic : ℕ
  pub state : State
  pub version : Option Version

-- The channel that `build` opens for a role.
unfoldable pub channel_id : Agency → Outcome ℕ
channel_id client = ok 0x0000
channel_id server = ok 0x8000
channel_id Agency.none = panic

-- `HandshakeBuilder::build`.
unfoldable pub build : HandshakeBuilder → Agency → Outcome Handshake
unfolding channel_id
build b role = Outcome.◌>>=◌ (channel_id role) λ _. ok (record {
  role = role;
  versions = b.versions;
  network_magic = b.magic;
  state = propose;
  version = none;
})

-- `protocol_id`.
unfoldable pub protocol_id : Handshake → Outcome ℕ
protocol_id s = elim s.role [ client ↦ ok 0 | server ↦ ok (flip_top 0) | Agency.none ↦ panic ]

abbrev state_agency : State → Agency
state_agency propose = client
state_agency confirm = server
state_agency done = Agency.none

unfoldable pub agency : Handshake → Agency
agency s = state_agency s.state

-- `self.versions.iter().map(|v| (v.clone(), self.network_magic)).collect()`.
abbrev pub proposals : List Version → ℕ → List (Version × ℕ)
proposals [] magic = []
proposals (v ∷ vs) magic = (v, magic) ∷ proposals vs magic

-- In `Confirm`: the last of the server's own versions.
abbrev accept_last : Option Version → Handshake → Outcome Message × Handshake
accept_last none s = (err no_versions, record s { state = done })
accept_last (some v) s =
    (ok (accept_version v s.network_magic), record s { state = done; version = some v })

abbrev send_from : State → Handshake → Outcome Message × Handshake
send_from propose s =
    (ok (propose_versions (proposals s.versions s.network_magic)), record s { state = confirm })
send_from confirm s = accept_last (last? s.versions) s
send_from done s = (panic, s)

unfoldable pub send : Handshake → Outcome Message × Handshake
send s = send_from s.state s

-- `self.versions.iter().filter(|v| **v == version).next().cloned()`.
unfoldable pub find_version : Version → List Version → Option Version
find_version version [] = none
find_version version (v ∷ vs) =
    let later = find_version version vs in if same_version v version then some v else later

-- `assert_eq!(magic, self.network_magic)` comes after the state was changed.
abbrev accepted : Version → ℕ → Handshake → Outcome (Unit {0}) × Handshake
accepted version magic s =
    let s' = record s { state = done; version = find_version version s.versions } in
    if magic == s.network_magic then (ok tt, s') else (panic, s')

abbrev recv_in : State → Message → Handshake → Outcome (Unit {0}) × Handshake
recv_in propose message s = (ok tt, record s { state = confirm })
recv_in confirm (accept_version version magic) s = accepted version magic s
recv_in confirm refuse s = (ok tt, record s { state = done })
recv_in confirm (propose_versions versions) s = (err unexpected_message, s)
recv_in done message s = (panic, s)

unfoldable pub recv : Handshake → Message → Outcome (Unit {0}) × Handshake
recv s message = recv_in s.state message s

module _ (codec : Codec) where
  -- `impl Protocol for Handshake`.
  abbrev pub protocol : Protocol Handshake Message
  protocol = record {
    role = λ s. s.role;
    agency = agency;
    send = send;
    recv = recv;
    from_iter = from_iter;
    to_bytes = λ message.
        Outcome.◌>>=◌ (to_values codec.key_compare message) λ values. to_bytes_default codec values;
  }

-- What `negotiate` gives: its result, or as `execute`.
pub data Negotiation : Type 0 where
  negotiated : Outcome (Version × ℕ) → Handshake → Channel → Negotiation
  waiting : Handshake → Channel → List ℕ → Negotiation
  panicked stuck : Negotiation

-- `self.version.map(…).ok_or("Handshake failed.")`.
abbrev pub outcome_of : Option Version → ℕ → Outcome (Version × ℕ)
outcome_of none magic = err handshake_failed
outcome_of (some v) magic = ok (v, magic)

abbrev pub after_execute : Execution Handshake → Negotiation
after_execute (finished s ch) = negotiated (outcome_of s.version s.network_magic) s ch
after_execute (Execution.waiting s ch held) = waiting s ch held
after_execute Execution.panicked = panicked
after_execute Execution.stuck = stuck

-- `Handshake::negotiate`.
unfoldable pub negotiate : Codec → ℕ → Handshake → Channel → Negotiation
negotiate codec fuel s ch = after_execute (execute (protocol codec) codec fuel s ch)
