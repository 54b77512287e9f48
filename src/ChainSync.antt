-- ===== src/ChainSync.antt =====
-- src/protocols/chainsync.rs: the chain-sync client. The hash function and the CBOR library are
-- parameters, since a block header that rolls the chain forward is unwrapped on receipt.
pub mod Messages
pub mod Machine
pub mod Session
pub mod Fuel
mod Examples
use rust_cardano_ouroboros_n.Prelude.{
  ℕ, Bool, true, false, Option, none, some, List, [], ◌∷◌, ◌++◌, if◌then◌else◌,
}
use rust_cardano_ouroboros_n.Prelude.Int.{ℤ, pos, is_tag}
use rust_cardano_ouroboros_n.Prelude.Outcome.{
  Outcome, ok, err, panic, unexpected_message, unsupported_state,
}
use rust_cardano_ouroboros_n.Model.{Bytes, Point, Tip, BlockHeader}
use rust_cardano_ouroboros_n.Cbor.{Codec, Items, nil, ◌▸◌, integer, bytes, array}
use rust_cardano_ouroboros_n.Values.{
  Cursor, ◌>>=◌, ◌>>◌, pure, lift, consume, read_array, next_integer, next_array, end,
}
use rust_cardano_ouroboros_n.Values
use rust_cardano_ouroboros_n.Convert.{
  point_to_vec, tip_to_vec, point_of_values, next_point, next_tip,
}
use rust_cardano_ouroboros_n.Header.{WrappedBlockHeader, next_wrapped, header_of_wrapped}
use rust_cardano_ouroboros_n.Protocol.{
  Agency, client, server, Protocol, Channel, Execution, finished, to_bytes_default, execute,
}

pub data State : Type 0 where
  idle intersecting can_await must_reply done : State

pub data Message : Type 0 where
  request_next await_reply : Message
  roll_forward : WrappedBlockHeader → Tip → Message
  roll_backward : Point → Tip → Message
  find_intersect : List Point → Message
  intersect_found : Point → Tip → Message
  intersect_not_found : Tip → Message
  done : Message

-- `while let Ok(item) = items.array()`: the call that ends the loop has taken a value too.
unfoldable pub points_loop : List Point → Cursor (List Point)
unfolding point_of_values
points_loop points nil = (ok points, nil)
points_loop points (v ▸ rest) = elim (read_array (some v)) [
  | ok item ↦ elim (point_of_values item) [
    | ok point ↦ points_loop (points ++ point ∷ []) rest
    | err e ↦ (err e, rest)
    | panic ↦ (panic, rest)
  ]
  | err _ ↦ (ok points, rest)
  | panic ↦ (panic, rest)
]

read_points : Cursor (List Point)
unfolding points_loop end
read_points = do points ← points_loop []; end; pure points

-- The part of `from_iter` behind the tag.
read_body : ℤ → Cursor Message
unfolding next_point next_tip next_wrapped next_array read_points
read_body tag =
    if is_tag tag 0
    then pure request_next
    else if is_tag tag 1
    then pure await_reply
    else if is_tag tag 2
    then (do header ← next_wrapped; tip ← next_tip; pure (roll_forward header tip))
    else if is_tag tag 3
    then (do point ← next_point; tip ← next_tip; pure (roll_backward point tip))
    else if is_tag tag 4
    then (do
      items ← next_array
      points ← lift (consume read_points items)
      pure (find_intersect points))
    else if is_tag tag 5
    then (do point ← next_point; tip ← next_tip; pure (intersect_found point tip))
    else if is_tag tag 6
    then (do tip ← next_tip; pure (intersect_not_found tip))
    else if is_tag tag 7
    then pure Message.done
    else lift (err unexpected_message)

read_message : Cursor Message
unfolding next_integer read_body end
read_message = do tag ← next_integer; message ← read_body tag; end; pure message

-- `Message::from_iter`.
unfoldable pub from_iter : Items → Outcome Message
unfolding read_message
from_iter = consume read_message

-- The points of `FindIntersect`, each an array of its own.
abbrev pub points_to_values : List Point → Items
points_to_values [] = nil
points_to_values (point ∷ points) =
    array (integer (pos point.slot) ▸ bytes point.hash ▸ nil) ▸ points_to_values points

-- `Message::to_values`.
unfoldable pub to_values : Message → Items
unfolding point_to_vec tip_to_vec
to_values request_next = integer (pos 0) ▸ nil
to_values await_reply = integer (pos 1) ▸ nil
to_values (roll_forward header tip) =
    integer (pos 2)
    ▸ array (integer (pos 0) ▸ bytes header.bytes ▸ nil)
    ▸ array (tip_to_vec tip)
    ▸ nil
to_values (roll_backward point tip) =
    integer (pos 3) ▸ array (point_to_vec point) ▸ array (tip_to_vec tip) ▸ nil
to_values (find_intersect points) = integer (pos 4) ▸ array (points_to_values points) ▸ nil
to_values (intersect_found point tip) =
    integer (pos 5) ▸ array (point_to_vec point) ▸ array (tip_to_vec tip) ▸ nil
to_values (intersect_not_found tip) = integer (pos 6) ▸ array (tip_to_vec tip) ▸ nil
to_values Message.done = integer (pos 7) ▸ nil

pub data Intersect : Type 0 where
  found : Point → Tip → Intersect
  not_found : Tip → Intersect

pub data Reply : Type 0 where
  forward : BlockHeader → Tip → Reply
  backward : Point → Tip → Reply

pub data Query : Type 0 where
  for_intersect : List Point → Query
  for_reply : Query

-- `ChainSync`, its channel apart.
pub record ChainSync : Type 0 where
  pub query : Option Query
  pub intersect : Option Intersect
  pub reply : Option Reply
  pub state : State

-- `ChainSyncBuilder::client`, and the channel that it opens.
abbrev pub channel_id : ℕ
channel_id = 0x0002

unfoldable pub client_new : ChainSync
client_new = record { query = none; intersect = none; reply = none; state = idle }

abbrev pub protocol_id : ℕ
protocol_id = 0x0002

abbrev state_agency : State → Agency
state_agency idle = client
state_agency intersecting = server
state_agency can_await = server
state_agency must_reply = server
state_agency State.done = Agency.none

abbrev query_agency : Option Query → State → Agency
query_agency none _ = Agency.none
query_agency (some _) state = state_agency state

unfoldable pub agency : ChainSync → Agency
agency s = query_agency s.query s.state

abbrev send_from : State → Option Query → ChainSync → Outcome Message × ChainSync
send_from idle none s = (panic, s)
send_from idle (some (for_intersect points)) s =
    (ok (find_intersect points), record s { state = intersecting })
send_from idle (some for_reply) s = (ok request_next, record s { state = can_await })
send_from _ _ s = (err unsupported_state, s)

unfoldable pub send : ChainSync → Outcome Message × ChainSync
send s = send_from s.state s.query s

-- `RollForward`: nothing is changed where the header cannot be unwrapped.
abbrev roll : Outcome BlockHeader → Tip → ChainSync → Outcome (Unit {0}) × ChainSync
roll (ok header) tip s =
    (ok tt, record s { reply = some (forward header tip); query = none; state = idle })
roll (err e) tip s = (err e, s)
roll panic tip s = (panic, s)

module _ (codec : Codec) (blake2b : Bytes → Bytes) where
  unfoldable pub recv : ChainSync → Message → Outcome (Unit {0}) × ChainSync
  recv s request_next = (ok tt, record s { state = can_await })
  recv s await_reply = (ok tt, record s { state = must_reply })
  recv s (roll_forward header tip) = roll (header_of_wrapped codec blake2b header) tip s
  recv s (roll_backward point tip) =
      (ok tt, record s { reply = some (backward point tip); query = none; state = idle })
  recv s (intersect_found point tip) =
      (ok tt, record s { intersect = some (found point tip); query = none; state = idle })
  recv s (intersect_not_found tip) =
      (ok tt, record s { intersect = some (not_found tip); query = none; state = idle })
  recv s Message.done = (ok tt, record s { state = State.done })
  recv s (find_intersect points) = (err unexpected_message, s)

  -- `impl Protocol for ChainSync`.
  abbrev pub protocol : Protocol ChainSync Message
  protocol = record {
    role = λ _. client;
    agency = agency;
    send = send;
    recv = recv;
    from_iter = from_iter;
    to_bytes = λ message. to_bytes_default codec (to_values message);
  }

-- What a query gives: its answer, or as `execute`.
pub data Answer (A : Type 0) : Type 0 where
  answered : A → ChainSync → Channel → Answer A
  waiting : ChainSync → Channel → Bytes → Answer A
  panicked stuck : Answer A

-- `Ok(self.intersect.take().unwrap())`, and the same for `reply`.
abbrev pub take_intersect : Option Intersect → ChainSync → Channel → Answer Intersect
take_intersect none s ch = panicked
take_intersect (some i) s ch = answered i (record s { intersect = none }) ch

abbrev pub take_reply : Option Reply → ChainSync → Channel → Answer Reply
take_reply none s ch = panicked
take_reply (some r) s ch = answered r (record s { reply = none }) ch

abbrev pub after_execute :
    {A : Type 0} → (ChainSync → Channel → Answer A) → Execution ChainSync → Answer A
after_execute take (finished s ch) = take s ch
after_execute take (Execution.waiting s ch held) = waiting s ch held
after_execute take Execution.panicked = panicked
after_execute take Execution.stuck = stuck

module _ (codec : Codec) (blake2b : Bytes → Bytes) where
  -- `ChainSync::find_intersect`.
  unfoldable pub ask_intersect : ℕ → List Point → ChainSync → Channel → Answer Intersect
  ask_intersect fuel points s ch =
      after_execute (λ s' ch'. take_intersect s'.intersect s' ch')
        (execute (protocol codec blake2b) codec fuel
          (record s { query = some (for_intersect points) }) ch)

  -- `ChainSync::request_next`.
  unfoldable pub ask_next : ℕ → ChainSync → Channel → Answer Reply
  ask_next fuel s ch =
      after_execute (λ s' ch'. take_reply s'.reply s' ch')
        (execute (protocol codec blake2b) codec fuel (record s { query = some for_reply }) ch)
