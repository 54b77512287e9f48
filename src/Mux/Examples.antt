-- ===== src/Mux/Examples.antt =====
-- Concrete frames, and the theorems at concrete inputs.
use rust_cardano_ouroboros_n.Prelude.{
  ℕ, zero, suc, ◌%◌, ◌^◌, ◌<◌, ◌≡◌, ◌≢◌, refl, List, [], ◌∷◌, ◌++◌, length, take, drop, none, some,
  arith, ◌==◌, if◌then◌else◌,
}
use rust_cardano_ouroboros_n.Prelude.Words.{flip_top}
use rust_cardano_ouroboros_n.Model.{Bytes}
use rust_cardano_ouroboros_n.Mux.{send, send_all, Sent, Channels, deliver, in_header, idle, feed}
use rust_cardano_ouroboros_n.Mux.Fifo.{arrives, asks, run_turns, run_turns-send_all}
use rust_cardano_ouroboros_n.Mux.Delivery.{
  feed_pieces, feed_pieces-send_all, feed-send_oversized, feed-send_partial, payloads_for, push_all,
}

abbrev nobody : Channels
nobody idx = none

abbrev channels : Channels
channels = λ idx. if idx == 0x8002 then some [] else none

abbrev sends : List Sent
sends =
    record { micros = 5; idx = 2; payload = 10 ∷ 11 ∷ [] }
    ∷ record { micros = 6; idx = 3; payload = 12 ∷ [] }
    ∷ record { micros = 7; idx = 2; payload = [] }
    ∷ []

abbrev wire : Bytes
wire = send_all length sends

-- A frame on the wire.
send_frame : send length 258 2 (10 ∷ 11 ∷ []) ≡ 0 ∷ 0 ∷ 1 ∷ 2 ∷ 0 ∷ 2 ∷ 0 ∷ 2 ∷ 10 ∷ 11 ∷ []
unfolding send
send_frame = refl

feed_pieces-send_all_example :
    let demux = feed_pieces (idle channels) (take 5 wire ∷ drop 5 wire ∷ []) in
    (demux.reader ≡ in_header [])
    × ((j : ℕ) → demux.channels j ≡ push_all (payloads_for j sends) (channels j))
unfolding send_all send
feed_pieces-send_all_example =
    feed_pieces-send_all length sends channels (take 5 wire ∷ drop 5 wire ∷ [])
      (
        (omega arith, omega arith, refl),
        ((omega arith, omega arith, refl), ((omega arith, omega arith, refl), tt)),
      )
      refl

-- As many zeros.
zeros : ℕ → Bytes
zeros zero = []
zeros (suc n) = 0 ∷ zeros n

length-zeros : (n : ℕ) → length (zeros n) ≡ n
unfolding zeros
length-zeros zero = refl
length-zeros (suc n) = omega (arith, length-zeros n)

feed-send_oversized_example :
    let kept = length (zeros 65539) % 2 ^ 16 in
    (kept < length (zeros 65539))
    × (feed (idle channels) (send length 5 2 (zeros 65539) ++ [])
        ≡ feed
            (idle (deliver (flip_top 2) (take kept (zeros 65539)) channels))
            (drop kept (zeros 65539) ++ []))
feed-send_oversized_example =
    feed-send_oversized 5 2 (zeros 65539) channels [] (omega arith)
      (omega (arith, length-zeros 65539))

feed-send_partial_example :
    feed (idle channels) (send (λ p. 1) 5 2 (10 ∷ 11 ∷ []) ++ ((0 ∷ []) ++ []))
    ≡ feed (idle (deliver (flip_top 2) (10 ∷ 0 ∷ []) channels)) []
feed-send_partial_example =
    feed-send_partial (λ p. 1) 5 2 (10 ∷ 11 ∷ []) channels (0 ∷ []) [] (omega arith) (omega arith)
      refl

run_turns-send_all_example :
    let (taken, demux) =
      run_turns 0x8002
        (arrives (take 12 wire) ∷ asks ∷ asks ∷ arrives (drop 12 wire) ∷ [])
        (idle channels) in
    (rest : List Bytes) × (demux.channels 0x8002 ≡ some rest)
    × (taken ++ rest ≡ [] ++ payloads_for 0x8002 sends)
    × ((j : ℕ) → j ≢ 0x8002 → demux.channels j ≡ push_all (payloads_for j sends) (channels j))
    × (demux.reader ≡ in_header [])
unfolding send_all send
run_turns-send_all_example =
    run_turns-send_all 0x8002 length sends
      (arrives (take 12 wire) ∷ asks ∷ asks ∷ arrives (drop 12 wire) ∷ []) channels []
      (
        (omega arith, omega arith, refl),
        ((omega arith, omega arith, refl), ((omega arith, omega arith, refl), tt)),
      )
      refl refl
