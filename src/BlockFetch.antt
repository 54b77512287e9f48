-- ===== src/BlockFetch.antt =====
-- src/protocols/blockfetch.rs: the block-fetch client and its stream of blocks.
pub mod Messages
pub mod Machine
pub mod Fetch
pub mod Session
pub mod Request
pub mod Wire
pub mod Lifetime
pub mod Typed
mod Examples
use rust_cardano_ouroboros_n.Prelude.{
  ℕ, zero, suc, Bool, true, false, Option, none, some, List, [], ◌∷◌, ◌++◌, if◌then◌else◌,
}
use rust_cardano_ouroboros_n.Prelude.Int.{ℤ, pos, is_tag}
use rust_cardano_ouroboros_n.Prelude.Outcome
use rust_cardano_ouroboros_n.Prelude.Outcome.{
  Outcome, ok, err, panic, ok_or, unexpected_state, first_required, last_required,
}
use rust_cardano_ouroboros_n.Model.{Bytes, Point, point_from}
use rust_cardano_ouroboros_n.Cbor.{Codec, Items, nil, ◌▸◌, integer, bytes, array}
use rust_cardano_ouroboros_n.Values.{
  Cursor, ◌>>=◌, ◌>>◌, pure, lift, consume, next_integer, next_bytes, end,
}
use rust_cardano_ouroboros_n.Convert.{next_point}
use rust_cardano_ouroboros_n.Protocol.{
  Agency, client, server, Protocol, Channel, Execution, finished, to_bytes_default, execute,
}

pub data State : Type 0 where
  idle busy streaming done : State

pub data Message : Type 0 where
  request_range : Point → Point → Message
  client_done start_batch no_blocks : Message
  block : Bytes → Message
  batch_done : Message

-- The part of `from_iter` behind the tag.
read_body : ℤ → Cursor Message
unfolding next_bytes next_point
read_body tag =
    if is_tag tag 0
    then (do first ← next_point; last ← next_point; pure (request_range first last))
    else if is_tag tag 1
    then pure client_done
    else if is_tag tag 2
    then pure start_batch
    else if is_tag tag 3
    then pure no_blocks
    else if is_tag tag 4
    then (do b ← next_bytes; pure (block b))
    else if is_tag tag 5
    then pure batch_done
    else lift panic

read_message : Cursor Message
unfolding next_integer read_body end
read_message = do tag ← next_integer; message ← read_body tag; end; pure message

-- `Message::from_iter`.
unfoldable pub from_iter : Items → Outcome Message
unfolding read_message
from_iter = consume read_message

-- A point as `vec![slot.into(), hash.into()].into()`.
abbrev range_end : Point → Items
range_end point = integer (pos point.slot) ▸ bytes point.hash ▸ nil

-- `Message::to_values`.
unfoldable pub to_values : Message → Items
to_values (request_range first last) =
    integer (pos 0) ▸ array (range_end first) ▸ array (range_end last) ▸ nil
to_values client_done = integer (pos 1) ▸ nil
to_values start_batch = integer (pos 2) ▸ nil
to_values no_blocks = integer (pos 3) ▸ nil
to_values (block b) = integer (pos 4) ▸ bytes b ▸ nil
to_values batch_done = integer (pos 5) ▸ nil

pub record Config : Type 0 where
  pub first : Point
  pub last : Point

-- `BlockFetch`, its channel apart.
pub record BlockFetch : Type 0 where
  pub config : Config
  pub state : State
  pub result : List Bytes
  pub running : Bool
  pub done : Bool

pub record Builder : Type 0 where
  pub first : Option Point
  pub last : Option Point

unfoldable pub builder : Builder
builder = record { first = none; last = none }

unfoldable pub set_first : ℕ → Bytes → Builder → Builder
set_first slot hash b = record b { first = some (point_from slot hash) }

unfoldable pub set_last : ℕ → Bytes → Builder → Builder
set_last slot hash b = record b { last = some (point_from slot hash) }

-- `Builder::client`; the channel is 0x0003.
unfoldable pub client_of : Builder → Outcome BlockFetch
client_of b = Outcome.◌>>=◌ (ok_or b.first first_required) λ first.
    Outcome.◌>>=◌ (ok_or b.last last_required) λ last. ok (record {
      config = record { first = first; last = last };
      state = idle;
      result = [];
      running = false;
      done = false;
    })

abbrev pub protocol_id : ℕ
protocol_id = 0x0003

abbrev state_agency : State → Agency
state_agency idle = client
state_agency busy = server
state_agency streaming = server
state_agency done = Agency.none

unfoldable pub agency : BlockFetch → Agency
agency s = if s.running then state_agency s.state else Agency.none

-- `send`, by `done` and the state. `debug_assert!(self.running)` comes first.
abbrev send_from : Bool → State → BlockFetch → Outcome Message × BlockFetch
send_from false idle s =
    (ok (request_range s.config.first s.config.last), record s { state = busy })
send_from true idle s = (ok client_done, record s { state = State.done })
send_from _ _ s = (err unexpected_state, s)

unfoldable pub send : BlockFetch → Outcome Message × BlockFetch
send s = if s.running then send_from s.done s.state s else (panic, s)

-- `recv`, by the state and the message.
abbrev recv_in : State → Message → BlockFetch → Outcome (Unit {0}) × BlockFetch
recv_in busy no_blocks s = (ok tt, record s { running = false; state = idle })
recv_in busy start_batch s = (ok tt, record s { state = streaming })
recv_in streaming (block b) s =
    (ok tt, record s { running = false; result = s.result ++ b ∷ []; state = streaming })
recv_in streaming batch_done s = (ok tt, record s { running = false; state = idle })
recv_in _ _ s = (panic, s)

unfoldable pub recv : BlockFetch → Message → Outcome (Unit {0}) × BlockFetch
recv s message = recv_in s.state message s

-- `impl Protocol for BlockFetch`.
abbrev pub protocol : Codec → Protocol BlockFetch Message
protocol codec = record {
  role = λ _. client;
  agency = agency;
  send = send;
  recv = recv;
  from_iter = from_iter;
  to_bytes = λ message. to_bytes_default codec (to_values message);
}

-- What `BlockStream::next` gives: a block or `None`, or as `execute`.
pub data Next : Type 0 where
  yielded : Option Bytes → BlockFetch → Channel → Next
  waiting : BlockFetch → Channel → Bytes → Next
  panicked stuck : Next

-- `self.blockfetch.result.remove(0)` where there is one.
abbrev pub pop : List Bytes → BlockFetch → Channel → Next
pop [] s ch = yielded none s ch
pop (b ∷ later) s ch = yielded (some b) (record s { result = later }) ch

abbrev pub after_execute : Execution BlockFetch → Next
after_execute (finished s ch) = pop s.result s ch
after_execute (Execution.waiting s ch held) = waiting s ch held
after_execute Execution.panicked = panicked
after_execute Execution.stuck = stuck

module _ (codec : Codec) where
  -- `run` and `done`, up to the values that they wrap.
  unfoldable pub run : ℕ → BlockFetch → Channel → Execution BlockFetch
  run fuel s ch = execute (protocol codec) codec fuel (record s { running = true }) ch

  unfoldable pub finish : ℕ → BlockFetch → Channel → Execution BlockFetch
  finish fuel s ch =
      execute (protocol codec) codec fuel (record s { running = true; done = true }) ch

  abbrev pub next_in : List Bytes → State → ℕ → BlockFetch → Channel → Next
  next_in (b ∷ later) _ fuel s ch = pop s.result s ch
  next_in [] streaming fuel s ch =
      after_execute (execute (protocol codec) codec fuel (record s { running = true }) ch)
  next_in [] idle fuel s ch = yielded none s ch
  next_in [] _ fuel s ch = panicked

  -- `BlockStream::next`.
  unfoldable pub next : ℕ → BlockFetch → Channel → Next
  next fuel s ch = next_in s.result s.state fuel s ch

-- A client that takes blocks while there are any: `while let Some(block) = blocks.next().await?`.
pub data Drained : Type 0 where
  all_blocks : List Bytes → BlockFetch → Channel → Drained
  interrupted : List Bytes → Drained

abbrev pub and_then : Bytes → Drained → Drained
and_then b (all_blocks blocks s ch) = all_blocks (b ∷ blocks) s ch
and_then b (interrupted blocks) = interrupted (b ∷ blocks)

abbrev pub after_next : (BlockFetch → Channel → Drained) → Next → Drained
after_next more (yielded none s ch) = all_blocks [] s ch
after_next more (yielded (some b) s ch) = and_then b (more s ch)
after_next more _ = interrupted []

unfoldable pub drain : Codec → ℕ → ℕ → BlockFetch → Channel → Drained
drain codec zero fuel s ch = interrupted []
drain codec (suc rounds) fuel s ch = after_next (drain codec rounds fuel) (next codec fuel s ch)

-- `let mut blocks = blockfetch.run().await?;` and that loop.
abbrev pub after_run : (BlockFetch → Channel → Drained) → Execution BlockFetch → Drained
after_run more (finished s ch) = more s ch
after_run more _ = interrupted []

unfoldable pub fetch_range : Codec → ℕ → ℕ → BlockFetch → Channel → Drained
fetch_range codec rounds fuel s ch = after_run (drain codec rounds fuel) (run codec fuel s ch)
