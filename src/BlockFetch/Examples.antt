-- ===== src/BlockFetch/Examples.antt =====
-- Concrete runs of the block-fetch client, and the theorems at concrete inputs.
use rust_cardano_ouroboros_n.Prelude.{
  length, if◌then◌else◌, ◌==◌, none, some, ◌+◌, ◌++◌, ◌≢◌, ◌≡◌, inl, refl, List, [], ◌∷◌, take,
  drop, true, false, arith,
}
use rust_cardano_ouroboros_n.Prelude.Outcome.{ok, err, first_required, last_required}
use rust_cardano_ouroboros_n.Model.{Bytes, Point, point_from}
use rust_cardano_ouroboros_n.Cbor.{Items}
use rust_cardano_ouroboros_n.Cbor.Sample.{sample, sample-IsCodec}
use rust_cardano_ouroboros_n.Values.{from_vec}
use rust_cardano_ouroboros_n.Mux
use rust_cardano_ouroboros_n.Mux.{Sent, Channels, send, send_all}
use rust_cardano_ouroboros_n.Mux.Delivery.{feed_pieces}
use rust_cardano_ouroboros_n.BlockFetch.Wire.{fetch_range-feed_pieces}
use rust_cardano_ouroboros_n.Protocol.{Channel, Execution, receive_bytes, execute}
use rust_cardano_ouroboros_n.Protocol.Stream.{encode, encode_all}
use rust_cardano_ouroboros_n.Protocol.Receive.{handle_all, leave, receive_bytes-encode_all}
use rust_cardano_ouroboros_n.Protocol.Execute.{execute-pieces}
use rust_cardano_ouroboros_n.Protocol.Fuel.{execute-ne-stuck}
use rust_cardano_ouroboros_n.BlockFetch.{
  protocol, block, batch_done, agency, busy, idle, streaming, request_range, start_batch, from_iter,
  to_values, Config, builder, set_first, set_last, client_of, all_blocks, fetch_range, finish,
}
use rust_cardano_ouroboros_n.BlockFetch.Machine.{
  at, stream_values, handle-start_batch, send-Alternates,
}
use rust_cardano_ouroboros_n.BlockFetch.Messages.{from_iter-to_values_blockfetch}
use rust_cardano_ouroboros_n.BlockFetch.Request.{fetch_range_batch, finish_streaming, FinishedWith}

abbrev first : Point
first = record { slot = 42; hash = 1 ∷ 2 ∷ [] }

abbrev last : Point
last = record { slot = 44; hash = 3 ∷ [] }

abbrev config : Config
config = record { first = first; last = last }

abbrev blocks : List Bytes
blocks = (7 ∷ 8 ∷ []) ∷ (9 ∷ []) ∷ []

abbrev channel : List Bytes → List Bytes → Channel
channel inbox outbox = record { bytes = []; inbox = inbox; outbox = outbox }

abbrev cut_at_nine : List Items → List Bytes
cut_at_nine values = take 9 (encode_all sample values) ∷ drop 9 (encode_all sample values) ∷ []

-- Both ends of the range are needed.
client_of-builder :
    (client_of builder ≡ err first_required)
    × (client_of (set_first 42 (1 ∷ 2 ∷ []) builder) ≡ err last_required)
    × (client_of (set_last 44 (3 ∷ []) (set_first 42 (1 ∷ 2 ∷ []) builder))
        ≡ ok (at sample config false idle [] false))
unfolding client_of builder set_first set_last point_from
client_of-builder = (refl, refl, refl)

from_iter-to_values_blockfetch_example :
    from_iter (from_vec (to_values (request_range first last))) ≡ ok (request_range first last)
from_iter-to_values_blockfetch_example =
    from_iter-to_values_blockfetch (request_range first last)
      (record { slot_range = omega arith }, record { slot_range = omega arith })

fetch_range_batch_example :
    fetch_range sample 3 4
      (at sample config false idle [] false)
      (channel (cut_at_nine (to_values start_batch ∷ stream_values blocks)) [])
    ≡ all_blocks blocks
        (at sample config false idle [] false)
        (channel [] (encode sample (to_values (request_range first last)) ∷ []))
unfolding to_values
fetch_range_batch_example =
    fetch_range_batch sample sample-IsCodec config
      (cut_at_nine (to_values start_batch ∷ stream_values blocks)) [] [] 3 4 false blocks refl
      (refl, (refl, (refl, (refl, tt)))) ((λ e. cc), ((λ e. cc), tt)) refl (omega arith)
      (omega arith)

finish_streaming_example : FinishedWith [] (
    finish sample 3
      (at sample config false streaming [] false)
      (channel (cut_at_nine (stream_values blocks)) []))
unfolding to_values
finish_streaming_example =
    finish_streaming sample sample-IsCodec config false false blocks
      (cut_at_nine (stream_values blocks)) [] [] [] 3
      (record {
        part = inl refl;
        full = ((λ e. cc), ((λ e. cc), tt));
        writable = (refl, (refl, (refl, tt)));
        bytes = refl;
      })
      (omega arith)

-- The loop that every protocol shares, run by the block-fetch client.
receive_bytes-encode_all_example :
    receive_bytes
      (protocol sample)
      sample
      (at sample config false streaming [] true)
      (encode_all sample (to_values (block (7 ∷ [])) ∷ to_values batch_done ∷ []) ++ [])
    ≡ leave
        (protocol sample)
        (handle_all
          (protocol sample)
          (at sample config false streaming [] true)
          (to_values (block (7 ∷ [])) ∷ to_values batch_done ∷ []))
        []
unfolding to_values agency
receive_bytes-encode_all_example =
    receive_bytes-encode_all (protocol sample) sample sample-IsCodec
      (to_values (block (7 ∷ [])) ∷ to_values batch_done ∷ [])
      (at sample config false streaming [] true) [] (refl, refl) (refl, (refl, tt)) (inl refl)

execute-pieces_example :
    execute
      (protocol sample)
      sample
      (1 + 1)
      (at sample config false busy [] true)
      (channel (encode_all sample (to_values start_batch ∷ []) ∷ []) [])
    ≡ execute (protocol sample) sample 1 (at sample config false streaming [] true) (channel [] [])
unfolding to_values agency
execute-pieces_example =
    execute-pieces (protocol sample) sample sample-IsCodec
      (encode_all sample (to_values start_batch ∷ []) ∷ []) [] (to_values start_batch ∷ [])
      (at sample config false busy [] true) (at sample config false streaming [] true) 1 [] []
      ((λ e. cc), tt) (inl refl) (refl, tt) refl
      ((refl, refl), (_, handle-start_batch sample config false [] true, refl))

execute-ne-stuck_example :
    execute
      (protocol sample)
      sample
      4
      (at sample config false idle [] true)
      (channel ((1 ∷ 2 ∷ []) ∷ []) [])
    ≢ Execution.stuck
execute-ne-stuck_example =
    execute-ne-stuck (protocol sample) sample sample-IsCodec (send-Alternates sample) 4
      (at sample config false idle [] true) (channel ((1 ∷ 2 ∷ []) ∷ []) []) (omega arith)

-- The batch as the other side sends it, beside a payload for another channel.
abbrev sends : List Sent
sends =
    record { micros = 5; idx = 0x8003; payload = encode_all sample (to_values start_batch ∷ []) }
    ∷ record { micros = 6; idx = 0x8002; payload = 1 ∷ [] }
    ∷ record { micros = 7; idx = 0x8003; payload = encode_all sample (stream_values blocks) }
    ∷ []

abbrev attached : Channels
attached = λ idx. if idx == 3 then some [] else none

fetch_range-feed_pieces_example :
    (queue : List Bytes) × ((feed_pieces
          (Mux.idle attached)
          (take 5 (send_all length sends) ∷ drop 5 (send_all length sends) ∷ [])).channels
        3
      ≡ some queue)
    × (fetch_range sample 3 4 (at sample config false idle [] false) (channel queue [])
        ≡ all_blocks blocks
            (at sample config false idle [] false)
            (channel [] (encode sample (to_values (request_range first last)) ∷ [])))
unfolding to_values send_all send
fetch_range-feed_pieces_example =
    fetch_range-feed_pieces sample sample-IsCodec config length sends attached
      (take 5 (send_all length sends) ∷ drop 5 (send_all length sends) ∷ []) [] blocks 3 4 false
      (
        (omega arith, omega arith, refl),
        ((omega arith, omega arith, refl), ((omega arith, omega arith, refl), tt)),
      )
      refl refl ((λ e. cc), ((λ e. cc), tt)) refl (refl, (refl, (refl, (refl, tt)))) refl
      (omega arith) (omega arith)
