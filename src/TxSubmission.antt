-- ===== src/TxSubmission.antt =====
-- src/protocols/txsubmission.rs: the part of transaction submission that is there. Its agency is
-- never given to anybody, so that `execute` returns at once.
pub mod Machine
mod Examples
use rust_cardano_ouroboros_n.Prelude.{
  ℕ, List, [], ◌∷◌, Bool, true, false, Option, none, some, if◌then◌else◌,
}
use rust_cardano_ouroboros_n.Prelude.Int.{ℤ, is_tag}
use rust_cardano_ouroboros_n.Prelude.Outcome.{Outcome, ok, err, panic, unexpected, unexpected_state}
use rust_cardano_ouroboros_n.Model.{Bytes}
use rust_cardano_ouroboros_n.Cbor.{Codec, Value, Items, nil, ◌▸◌, integer, bool}
use rust_cardano_ouroboros_n.Values.{to_vec}
use rust_cardano_ouroboros_n.Protocol.{Agency, client, Protocol, to_bytes_default}

pub data State : Type 0 where
  idle tx_ids_blocking tx_ids_non_blocking done : State

pub data Message : Type 0 where
  array : Items → Message
  raw : Bytes → Message

-- `Message::from_values`, through the trait's own `from_iter`.
unfoldable pub from_iter : Items → Outcome Message
from_iter values = ok (array (to_vec values))

-- `Message::to_bytes`.
unfoldable pub to_bytes : Codec → Message → Outcome Bytes
to_bytes codec (raw b) = ok b
to_bytes codec (array values) = to_bytes_default codec values

-- `TxSubmission`, its channel apart.
pub record TxSubmission : Type 0 where
  pub state : State

-- `TxSubmission::new`; the channel is 0x0004.
unfoldable pub new : TxSubmission
new = record { state = idle }

abbrev pub protocol_id : ℕ
protocol_id = 0x0004

-- An array of two: the identifier of `ReplyTxIds` and an empty array of indefinite length.
unfoldable pub msg_reply_tx_ids : Message
msg_reply_tx_ids = raw (0x82 ∷ 0x01 ∷ 0x9f ∷ 0xff ∷ [])

unfoldable pub agency : TxSubmission → Agency
agency s = elim s.state [
  | idle ↦ Agency.none
  | tx_ids_blocking ↦ Agency.none
  | tx_ids_non_blocking ↦ Agency.none
  | done ↦ Agency.none
]

abbrev send_from : State → TxSubmission → Outcome Message × TxSubmission
unfolding msg_reply_tx_ids
send_from tx_ids_blocking s = (err unexpected, record s { state = done })
send_from tx_ids_non_blocking s = (ok msg_reply_tx_ids, record s { state = idle })
send_from _ s = (err unexpected_state, s)

unfoldable pub send : TxSubmission → Outcome Message × TxSubmission
unfolding msg_reply_tx_ids
send s = send_from s.state s

-- `cbor_array[1] == Value::Bool(true)`; the index panics where there is no such value.
abbrev is_blocking : Items → Outcome Bool
is_blocking nil = panic
is_blocking (bool b ▸ rest) = ok b
is_blocking (v ▸ rest) = ok false

abbrev request : Outcome Bool → TxSubmission → Outcome (Unit {0}) × TxSubmission
request (ok b) s = (ok tt, record s { state = if b then tx_ids_blocking else tx_ids_non_blocking })
request (err e) s = (err e, s)
request panic s = (panic, s)

-- `cbor_array[0]`, which panics on an empty array, and what the message identifier says.
abbrev recv_array : Items → TxSubmission → Outcome (Unit {0}) × TxSubmission
recv_array nil s = (panic, s)
recv_array (integer message_id ▸ rest) s =
    if is_tag message_id 0 then request (is_blocking rest) s else (ok tt, s)
recv_array (v ▸ rest) s = (ok tt, s)

unfoldable pub recv : TxSubmission → Message → Outcome (Unit {0}) × TxSubmission
recv s (array values) = recv_array values s
recv s (raw b) = (panic, s)

-- `impl Protocol for TxSubmission`.
abbrev pub protocol : Codec → Protocol TxSubmission Message
protocol codec = record {
  role = λ _. client;
  agency = agency;
  send = send;
  recv = recv;
  from_iter = from_iter;
  to_bytes = to_bytes codec;
}
