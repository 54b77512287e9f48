-- ===== src/BlockFetch/Wire.antt =====
-- The block-fetch client behind the multiplexer: from the bytes on the wire to the blocks.
use rust_cardano_ouroboros_n.Prelude.{
  ℕ, ◌+◌, ◌*◌, ◌<◌, ◌≡◌, ◌≢◌, refl, sym, ap, ◌∙◌, List, [], ◌∷◌, ◌++◌, append-nil, All, length,
  concat, Bool, true, false, some,
}
use rust_cardano_ouroboros_n.Model.{Bytes}
use rust_cardano_ouroboros_n.Cbor.{Codec, IsCodec}
use rust_cardano_ouroboros_n.Mux.{Sent, Channels, send_all, idle}
use rust_cardano_ouroboros_n.Mux.Delivery.{
  IsWhole, payloads_for, push_all, feed_pieces, feed_pieces-send_all,
}
use rust_cardano_ouroboros_n.Protocol.{Channel, Execution, finished}
use rust_cardano_ouroboros_n.Protocol.Stream.{encode, encode_all, IsWritable}
use rust_cardano_ouroboros_n.Protocol.Fuel.{execute-ne-stuck}
use rust_cardano_ouroboros_n.BlockFetch.{
  State, request_range, start_batch, to_values, Config, BlockFetch, Next, protocol, protocol_id,
  pop, next, next_in, after_execute, all_blocks, fetch_range,
}
use rust_cardano_ouroboros_n.BlockFetch.Machine.{at, stream_values, send-Alternates}
use rust_cardano_ouroboros_n.BlockFetch.Request.{fetch_range_batch}

-- The other side sends whole payloads to any channels, in any order, and those for the block-fetch
-- channel are not empty and hold a batch with the blocks `bs`. If the client's channel is attached and
-- empty, then however the bytes are cut on the wire, an idle client that holds no blocks and takes what
-- is in its queue then gets exactly the blocks `bs` in their order and ends idle, where the encoder
-- accepts the request and the batch, at more rounds than blocks and at fuel of two turns more than
-- payloads.
pub fetch_range-feed_pieces :
    (codec : Codec) (laws : IsCodec codec) (config : Config) (write : Bytes → ℕ) (sends : List Sent)
    (channels : Channels) (wire sent bs : List Bytes) (rounds fuel : ℕ) (running : Bool)
    → let payloads = payloads_for protocol_id sends in
      let request = to_values (request_range config.first config.last) in
      All (IsWhole write) sends
      → concat wire ≡ send_all write sends
      → channels protocol_id ≡ some []
      → All (λ payload. payload ≢ []) payloads
      → concat payloads ≡ encode_all codec (to_values start_batch ∷ stream_values bs)
      → All (IsWritable codec) (to_values start_batch ∷ stream_values bs)
      → IsWritable codec request
      → length bs < rounds
      → length payloads + 1 < fuel
      → (queue : List Bytes) × ((feed_pieces (idle channels) wire).channels protocol_id
          ≡ some queue)
        × (fetch_range codec rounds fuel
              (at codec config false State.idle [] running)
              (record { bytes = []; inbox = queue; outbox = sent })
            ≡ all_blocks bs
                (at codec config false State.idle [] false)
                (record { bytes = []; inbox = []; outbox = sent ++ encode codec request ∷ [] }))
fetch_range-feed_pieces codec laws config write sends channels wire sent bs rounds fuel running
      whole e attached full c w wr lt enough =
    let payloads = payloads_for protocol_id sends in
    (
      payloads,
      (feed_pieces-send_all write sends channels wire whole e).1 protocol_id
          ∙ ap (push_all payloads) attached,
      ap
            (λ inbox.
              fetch_range codec rounds fuel (at codec config false State.idle [] running)
                (record { bytes = []; inbox = inbox; outbox = sent }))
            (sym (append-nil payloads))
          ∙ fetch_range_batch codec laws config payloads [] sent rounds fuel running bs wr w full c
              lt enough,
    )

-- Whatever arrives, `next` ends within two turns for each payload and two turns more: it returns, panics,
-- or waits for a payload that does not come.
pub next-ne-stuck :
    (codec : Codec) (laws : IsCodec codec) (fuel : ℕ) (s : BlockFetch) (ch : Channel)
    → 2 * length ch.inbox + 1 < fuel
    → next codec fuel s ch ≢ Next.stuck
unfolding next
next-ne-stuck codec laws fuel s ch lt = go s.result s.state
  where
    pop-ne-stuck : (bs : List Bytes) (u : BlockFetch) (c : Channel) → pop bs u c ≢ Next.stuck
    pop-ne-stuck [] u c = λ e. cc
    pop-ne-stuck (b ∷ bs) u c = λ e. cc

    after : (x : Execution BlockFetch) → x ≢ Execution.stuck → after_execute x ≢ Next.stuck
    after (finished u c) n = pop-ne-stuck u.result u c
    after (Execution.waiting u c held) n = λ e. cc
    after Execution.panicked n = λ e. cc
    after Execution.stuck n = absurd (n refl)

    go : (bs : List Bytes) (state : State) → next_in codec bs state fuel s ch ≢ Next.stuck
    go (b ∷ bs) state = pop-ne-stuck s.result s ch
    go [] State.streaming = after _ (
        execute-ne-stuck (protocol codec) codec laws (send-Alternates codec) fuel
          (record s { running = true }) ch lt)
    go [] State.idle = λ e. cc
    go [] State.busy = λ e. cc
    go [] State.done = λ e. cc
