-- ===== src/Handshake/Duplex.antt =====
-- src/protocols/handshake.rs on both ends of a connection: a client and a server that take their turns
-- in any order, while their bytes come in any parts.
pub mod Steps
pub mod Progress
mod Examples
use rust_cardano_ouroboros_n.Prelude.{
  ℕ, zero, suc, ◌+◌, ◌<◌, ◌≡◌, ◌≢◌, inl, inr, refl, sym, ap, ◌∙◌, List, [], ◌∷◌, ◌++◌, append-nil,
  take, drop, length, last?, Option, none, some, arith, ==_refl,
}
use rust_cardano_ouroboros_n.Prelude.Int.{IsU32}
use rust_cardano_ouroboros_n.Prelude.Outcome.{ok}
use rust_cardano_ouroboros_n.Model.{Bytes}
use rust_cardano_ouroboros_n.Cbor.{Codec, IsCodec, Items}
use rust_cardano_ouroboros_n.Protocol.{Agency, client, server, handle, send_bytes}
use rust_cardano_ouroboros_n.Protocol.Stream.{encode, IsWritable}
use rust_cardano_ouroboros_n.Protocol.Receive.{Hears}
use rust_cardano_ouroboros_n.Protocol.Execute.{handle-recv, send_bytes-send, nothing_left}
use rust_cardano_ouroboros_n.Protocol.Duplex.{
  Pair, Move, left_turn, right_turn, After, reached, after_left, after_right, arrived, turn,
  turn-ended, turn_send, turn_receive, step,
}
use rust_cardano_ouroboros_n.Protocol.Duplex.Reading.{Reads, turn-Reads}
use rust_cardano_ouroboros_n.Handshake.{
  Handshake, State, propose, confirm, done, propose_versions, accept_version, agency, send, recv,
  protocol, proposals, find_version,
}
use rust_cardano_ouroboros_n.Handshake.Versions.{Version}
use rust_cardano_ouroboros_n.Handshake.Versions.RoundTrip.{FitsWord}
use rust_cardano_ouroboros_n.Handshake.Messages.{
  IsOrdered, accept_items, to_values-propose_versions, from_iter-propose_versions,
  to_values-accept_version, from_iter-accept_items,
}
use rust_cardano_ouroboros_n.Handshake.Machine.{to_bytes-Writes}
use rust_cardano_ouroboros_n.Handshake.Agreement.{proposal_items}

abbrev pub machine : Agency → List Version → ℕ → State → Option Version → Handshake
machine role versions magic state version = record {
  role = role;
  versions = versions;
  network_magic = magic;
  state = state;
  version = version;
}

abbrev pub pair : Handshake → Bytes → Bytes → Handshake → Bytes → Bytes → Pair Handshake Handshake
pair c c_held to_c s s_held to_s = record {
  left = c;
  left_held = c_held;
  to_left = to_c;
  right = s;
  right_held = s_held;
  to_right = to_s;
}

-- What a client and a server with one magic rely on: the client's versions are supported ones in the
-- strict order of their keys, the last version of the server fits 16 bits, the magic 32, and the encoder
-- accepts both messages.
pub record IsReady (codec : Codec) (ours theirs : List Version) (magic : ℕ) (v : Version)
    : Type 0 where
  pub small : IsU32 magic
  pub ordered : IsOrdered (proposals ours magic)
  pub newest : last? theirs ≡ some v
  pub fits : FitsWord v
  pub asks : IsWritable codec (proposal_items ours magic)
  pub accepts : IsWritable codec (accept_items v magic)

-- Whose turn it is.
pub data Side : Type 0 where
  nobody on_left on_right : Side

-- The end whose turn it is takes it, and at least a byte has arrived if it has to read.
abbrev pub Awaited : Side → Move → Type 0
Awaited on_left (left_turn (suc n)) = Unit {0}
Awaited on_left (left_turn zero) = ⊥
Awaited on_left (right_turn n) = ⊥
Awaited on_right (right_turn (suc n)) = Unit {0}
Awaited on_right (right_turn zero) = ⊥
Awaited on_right (left_turn n) = ⊥
Awaited nobody m = ⊥

pub nothing_arrived : (n : ℕ) → arrived (take n []) ≡ none
nothing_arrived zero = refl
nothing_arrived (suc n) = refl

module _ (codec : Codec) (ours theirs : List Version) (magic : ℕ) (v : Version) where
  abbrev pub client_at : State → Option Version → Handshake
  client_at = machine client ours magic

  abbrev pub server_at : State → Option Version → Handshake
  server_at = machine server theirs magic

  abbrev pub request : Bytes
  request = encode codec (proposal_items ours magic)

  abbrev pub answer : Bytes
  answer = encode codec (accept_items v magic)

  -- The phases of the exchange.
  pub data Phase : Pair Handshake Handshake → Type 0 where
    unasked : Phase (pair (client_at propose none) [] [] (server_at propose none) [] [])
    asked :
        (held coming : Bytes)
        → held ++ coming ≡ request
        → coming ≢ []
        → Phase (pair (client_at confirm none) [] [] (server_at propose none) held coming)
    heard : Phase (pair (client_at confirm none) [] [] (server_at confirm none) [] [])
    answered :
        (held coming : Bytes)
        → held ++ coming ≡ answer
        → coming ≢ []
        → Phase (pair (client_at confirm none) held coming (server_at done (some v)) [] [])
    agreed :
        Phase (pair (client_at done (find_version v ours)) [] [] (server_at done (some v)) [] [])

  abbrev pub side : {x : Pair Handshake Handshake} → Phase x → Side
  side unasked = on_left
  side (asked _ _ _ _) = on_right
  side heard = on_right
  side (answered _ _ _ _) = on_left
  side agreed = nobody

  -- How far the exchange is from its end.
  abbrev client_left : State → ℕ
  client_left propose = length request + 2
  client_left confirm = 1
  client_left done = 0

  abbrev server_left : State → ℕ
  server_left propose = length answer + 2
  server_left confirm = length answer + 1
  server_left done = 0

  abbrev pub measure : Pair Handshake Handshake → ℕ
  measure x =
      client_left x.left.state + server_left x.right.state + length x.to_left + length x.to_right

  -- A turn leaves everything as it is, if it is not awaited, or it goes on to the next phase.
  pub data Stepped {x : Pair Handshake Handshake} (h : Phase x) (m : Move) : Type 0 where
    stays :
        step (protocol codec) (protocol codec) codec m x ≡ reached x
        → ¬ Awaited (side h) m
        → Stepped h m
    moves :
        (y : Pair Handshake Handshake)
        → step (protocol codec) (protocol codec) codec m x ≡ reached y
        → Phase y
        → measure y < measure x
        → Stepped h m
