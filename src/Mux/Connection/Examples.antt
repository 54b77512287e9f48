-- ===== src/Mux/Connection/Examples.antt =====
-- Concrete lives of a connection, and the theorems at concrete inputs.
use rust_cardano_ouroboros_n.Prelude.{
  ℕ, ◌≡◌, ◌≢◌, refl, List, [], ◌∷◌, ◌++◌, length, drop, none, some, arith, ◌==◌, if◌then◌else◌,
}
use rust_cardano_ouroboros_n.Mux.{
  send, send_all, Sent, Channels, in_header, idle, recv, waiting, register, unregister,
}
use rust_cardano_ouroboros_n.Mux.Delivery.{payloads_for, push_all}
use rust_cardano_ouroboros_n.Mux.Connection.{
  Connection, failed, running, new, open_channel, read_bytes, end_of_stream, Reach, here, next,
  arrives, ends, opens, run_demux,
}
use rust_cardano_ouroboros_n.Mux.Connection.Invariant.{IsConsistent, Reach-IsConsistent}
use rust_cardano_ouroboros_n.Mux.Connection.Handover.{
  at, next_channel, next_channel-send_all, next_channel-inside_frame,
}
use rust_cardano_ouroboros_n.Mux.Connection.End.{Keeps, still, then_step, recv-failed}

-- A connection with the channel 3 open, and then at the end of its stream.
abbrev opened : Connection
opened = open_channel 3 new

abbrev ended : Connection
ended = end_of_stream opened

Reach-opened : Reach new opened
unfolding new
Reach-opened = next here (opens new 3 (omega arith) refl)

Reach-ended : Reach new ended
Reach-ended = next Reach-opened (ends opened)

Reach-IsConsistent_example : IsConsistent ended
Reach-IsConsistent_example = Reach-IsConsistent Reach-ended

-- Bytes that come too late.
abbrev later : Connection
later = record ended { socket = ended.socket ++ 1 ∷ [] }

Keeps-later : Keeps 3 ended later
unfolding end_of_stream open_channel run_demux new
Keeps-later = then_step still (arrives ended (1 ∷ []) (omega arith, tt)) refl

recv-failed_example :
    (later.task ≡ failed) × (later.channels 3 ≡ some []) × (recv 3 later.channels ≡ waiting)
unfolding end_of_stream open_channel run_demux new register recv
recv-failed_example = recv-failed 3 Reach-ended refl refl (λ payload taken e. cc) Keeps-later

abbrev channels : Channels
channels = λ idx. if idx == 0 then some [] else none

abbrev first : List Sent
first = record { micros = 5; idx = 0x8000; payload = 10 ∷ 11 ∷ [] } ∷ []

abbrev second : List Sent
second =
    record { micros = 6; idx = 0x8003; payload = 12 ∷ [] }
    ∷ record { micros = 7; idx = 0x8000; payload = 13 ∷ [] }
    ∷ []

alone : (k : ℕ) → k ≢ 0 → channels k ≡ none
alone k n = ground arith

next_channel-send_all_example :
    let early = send_all length first in
    let late = send_all length second in
    let c = at (early ++ (late ++ 9 ∷ [])) (0 ∷ []) (idle channels) in
    let used = read_bytes (length early) c in
    let done = read_bytes (length late) (next_channel 0 3 used) in
    (used.channels 0 ≡ push_all (payloads_for 0 first) (channels 0))
    × (done.channels 3 ≡ some (payloads_for 3 second))
    × ((k : ℕ) → k ≢ 3 → done.channels k ≡ none)
    × (done.task ≡ running (in_header []))
    × (done.socket ≡ 9 ∷ [])
next_channel-send_all_example =
    next_channel-send_all 0 3 length first second (9 ∷ []) channels
      ((omega arith, omega arith, refl), tt)
      ((omega arith, omega arith, refl), ((omega arith, omega arith, refl), tt)) alone

next_channel-inside_frame_example :
    next_channel 0 3
      (read_bytes 9 (at (send length 5 0x8000 (10 ∷ 11 ∷ []) ++ 9 ∷ []) (0 ∷ []) (idle channels)))
    ≡ at
        (drop 9 (send length 5 0x8000 (10 ∷ 11 ∷ [])) ++ 9 ∷ [])
        (3 ∷ [])
        (idle (register 3 (unregister 0 channels)))
unfolding send
next_channel-inside_frame_example =
    next_channel-inside_frame 0 3 9 5 0x8000 length (10 ∷ 11 ∷ []) (9 ∷ []) channels (omega arith)
      refl (omega arith)
