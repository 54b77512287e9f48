-- ===== src/BlockFetch/Lifetime.antt =====
-- src/protocols/blockfetch.rs: the whole life of a client, as in its test `client_works`: it fetches its
-- range as often as it likes, and then closes the exchange.
mod Examples
use rust_cardano_ouroboros_n.Prelude.{
  ℕ, zero, suc, ◌+◌, ◌<◌, ◌≡◌, ◌≢◌, refl, sym, ap, ◌∙◌, Bool, true, false, List, [], ◌∷◌, ◌++◌,
  append-nil, append_assoc, All, length, concat, arith,
}
use rust_cardano_ouroboros_n.Model.{Bytes}
use rust_cardano_ouroboros_n.Cbor.{Codec, IsCodec, Items}
use rust_cardano_ouroboros_n.Protocol.{Channel, Execution, finished}
use rust_cardano_ouroboros_n.Protocol.Stream.{encode, encode_all, IsWritable}
use rust_cardano_ouroboros_n.BlockFetch.{
  State, idle, request_range, client_done, start_batch, no_blocks, to_values, Config, BlockFetch,
  finish, Drained, all_blocks, interrupted, fetch_range,
}
use rust_cardano_ouroboros_n.BlockFetch.Machine.{at, stream_values}
use rust_cardano_ouroboros_n.BlockFetch.Request.{
  fetch_range_batch, fetch_range_no_blocks, finish-idle,
}

-- The blocks of each range, up to where it ends: closed by `done`, or before.
pub data Lifetime : Type 0 where
  closed : List (List Bytes) → BlockFetch → Channel → Lifetime
  broken_off : List (List Bytes) → Lifetime

abbrev pub and_blocks : List Bytes → Lifetime → Lifetime
and_blocks bs (closed ranges s ch) = closed (bs ∷ ranges) s ch
and_blocks bs (broken_off ranges) = broken_off (bs ∷ ranges)

abbrev pub after_drained : (BlockFetch → Channel → Lifetime) → Drained → Lifetime
after_drained more (all_blocks bs s ch) = and_blocks bs (more s ch)
after_drained more (interrupted bs) = broken_off (bs ∷ [])

abbrev pub after_finish : Execution BlockFetch → Lifetime
after_finish (finished s ch) = closed [] s ch
after_finish _ = broken_off []

-- Some ranges, and then `done`.
unfoldable pub client_works : Codec → ℕ → ℕ → ℕ → BlockFetch → Channel → Lifetime
client_works codec rounds fuel zero s ch = after_finish (finish codec fuel s ch)
client_works codec rounds fuel (suc ranges) s ch =
    after_drained (client_works codec rounds fuel ranges) (fetch_range codec rounds fuel s ch)

-- The server's answer to a request, and the pieces in which it comes.
pub data Reply : Type 0 where
  batch : List Bytes → Reply
  nothing : Reply

abbrev pub blocks_of : Reply → List Bytes
blocks_of (batch bs) = bs
blocks_of nothing = []

abbrev pub values_of : Reply → List Items
values_of (batch bs) = to_values start_batch ∷ stream_values bs
values_of nothing = to_values no_blocks ∷ []

pub record Answer : Type 0 where
  pub reply : Reply
  pub pieces : List Bytes

abbrev pub inbox : List Answer → List Bytes
inbox [] = []
inbox (a ∷ answers) = a.pieces ++ inbox answers

abbrev pub ranges_of : List Answer → List (List Bytes)
ranges_of [] = []
ranges_of (a ∷ answers) = blocks_of a.reply ∷ ranges_of answers

module _ (codec : Codec) (laws : IsCodec codec) (config : Config) (rounds fuel : ℕ) where
  pub record IsAnswer (a : Answer) : Type 0 where
    pub full : All (λ piece. piece ≢ []) a.pieces
    pub writable : All (IsWritable codec) (values_of a.reply)
    pub bytes : concat a.pieces ≡ encode_all codec (values_of a.reply)
    pub room : length (blocks_of a.reply) < rounds
    pub enough : length a.pieces + 1 < fuel

  abbrev request : Items
  request = to_values (request_range config.first config.last)

  -- What the server gets: a request for each answer, and `ClientDone`.
  abbrev pub heard : List Answer → List Bytes
  heard [] = encode codec (to_values client_done) ∷ []
  heard (a ∷ answers) = encode codec request ∷ heard answers

  abbrev pub channel : List Bytes → List Bytes → Channel
  channel arriving sent = record { bytes = []; inbox = arriving; outbox = sent }

  abbrev pub client : Bool → BlockFetch
  client running = at codec config false idle [] running

  fetch_range-IsAnswer :
      (reply : Reply) (pieces later sent : List Bytes) (running : Bool)
      → IsWritable codec request
      → IsAnswer (record { reply = reply; pieces = pieces })
      → fetch_range codec rounds fuel (client running) (channel (pieces ++ later) sent)
        ≡ all_blocks
            (blocks_of reply)
            (client false)
            (channel later (sent ++ encode codec request ∷ []))
  fetch_range-IsAnswer (batch bs) pieces later sent running wr h =
      fetch_range_batch codec laws config pieces later sent rounds fuel running bs wr h.writable
        h.full h.bytes h.room h.enough
  fetch_range-IsAnswer nothing pieces later sent running wr h =
      fetch_range_no_blocks codec laws config pieces later sent rounds fuel running wr h.writable.0
        h.full (h.bytes ∙ append-nil _) h.room h.enough

  -- An idle client that holds no blocks fetches its range once for each of some answers, and then calls
  -- `done`. If each answer is a batch of blocks or the word that there are none, in any pieces that are
  -- not empty, then the client gets exactly the blocks of each answer in their order, has sent one
  -- request for each of them and then `ClientDone`, and is done, with nothing read behind the answers.
  -- The encoder accepts all messages, there are more rounds than blocks in each answer, and fuel is two
  -- turns more than its pieces, and two at least.
  pub client_works-answers :
      (answers : List Answer) (later sent : List Bytes) (running : Bool)
      → IsWritable codec request
      → IsWritable codec (to_values client_done)
      → 1 < fuel
      → All IsAnswer answers
      → client_works codec rounds fuel
          (length answers)
          (client running)
          (channel (inbox answers ++ later) sent)
        ≡ closed
            (ranges_of answers)
            (at codec config true State.done [] true)
            (channel later (sent ++ heard answers))
  unfolding client_works
  client_works-answers [] later sent running wr wd lt h =
      ap after_finish (finish-idle codec config [] sent running false [] later fuel wd lt)
  client_works-answers (a ∷ answers) later sent running wr wd lt (h, hs) =
      ap
        (λ l.
          after_drained (client_works codec rounds fuel (length answers))
            (fetch_range codec rounds fuel (client running) (channel l sent)))
        (append_assoc a.pieces (inbox answers) later)
      ∙ ap (after_drained (client_works codec rounds fuel (length answers)))
          (fetch_range-IsAnswer a.reply a.pieces (inbox answers ++ later) sent running wr h)
      ∙ ap (and_blocks (blocks_of a.reply)) (
          client_works-answers answers later (sent ++ encode codec request ∷ []) false wr wd lt hs
          ∙ ap
              (λ out.
                closed (ranges_of answers) (at codec config true State.done [] true)
                  (channel later out))
              (append_assoc sent (encode codec request ∷ []) (heard answers)))
