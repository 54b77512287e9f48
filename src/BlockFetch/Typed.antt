-- ===== src/BlockFetch/Typed.antt =====
-- The block-fetch client as a typed machine: which message it may send or receive in a state, and what
-- that makes of it.
mod Examples
use rust_cardano_ouroboros_n.Prelude.{
  ℕ, ◌≡◌, refl, sym, ap, ◌∙◌, Bool, true, false, List, [], ◌∷◌, ◌++◌, arith,
}
use rust_cardano_ouroboros_n.Prelude.Outcome
use rust_cardano_ouroboros_n.Prelude.Outcome.{Outcome, ok, err, panic, unwrap}
use rust_cardano_ouroboros_n.Model.{Bytes}
use rust_cardano_ouroboros_n.Cbor.{Codec, Items}
use rust_cardano_ouroboros_n.Protocol.{
  Protocol, Channel, Execution, received, handle, send_bytes, encode_sent,
}
use rust_cardano_ouroboros_n.Protocol.Traces.{Event, sent, heard, IsTyped, Follows, execute-Follows}
use rust_cardano_ouroboros_n.BlockFetch.{
  State, idle, busy, streaming, Message, request_range, client_done, start_batch, no_blocks, block,
  batch_done, from_iter, Config, BlockFetch, agency, send, recv, protocol, run, finish,
}
use rust_cardano_ouroboros_n.BlockFetch.Machine.{at}

-- From a state to the next one, with the blocks that are held then.
pub record Goes (s : BlockFetch) (from to : State) (blocks : List Bytes) (t : BlockFetch)
    : Type 0 where
  pub was : s.state ≡ from
  pub is : t.state ≡ to
  pub range : t.config ≡ s.config
  pub holds : t.result ≡ blocks
  pub closing : t.done ≡ s.done

-- The exchange: an idle client asks for its range or, when it is to close, ends the exchange. A busy one
-- hears of a batch or that there are no blocks, and a streaming one gets a block or the end of the batch.
pub data May (s : BlockFetch) : Event Message → BlockFetch → Type 0 where
  asks :
      {t : BlockFetch}
      → s.done ≡ false
      → Goes s idle busy s.result t
      → May s (sent (request_range s.config.first s.config.last)) t
  closes :
      {t : BlockFetch}
      → s.done ≡ true
      → Goes s idle State.done s.result t
      → May s (sent client_done) t
  starts : {t : BlockFetch} → Goes s busy streaming s.result t → May s (heard start_batch) t
  refuses : {t : BlockFetch} → Goes s busy idle s.result t → May s (heard no_blocks) t
  gets :
      {t : BlockFetch} (b : Bytes)
      → Goes s streaming streaming (s.result ++ b ∷ []) t
      → May s (heard (block b)) t
  ends : {t : BlockFetch} → Goes s streaming idle s.result t → May s (heard batch_done) t

module _ {S M : Type 0} (p : Protocol S M) where
  encode_sent-ok :
      (m : M) (u t : S) (b : Bytes)
      → encode_sent p (ok m, u) ≡ ok (b, t)
      → (p.to_bytes m ≡ ok b) × (u ≡ t)
  encode_sent-ok m u t b e = by_bytes (p.to_bytes m) refl e
    where
      by_bytes :
          (o : Outcome Bytes)
          → p.to_bytes m ≡ o
          → (Outcome.◌>>=◌ {B = Bytes × S} (unwrap o) λ c. ok (c, u)) ≡ ok (b, t)
          → (p.to_bytes m ≡ ok b) × (u ≡ t)
      by_bytes (ok c) q h = (q ∙ cc h, cc h)
      by_bytes (err x) q h = cc
      by_bytes panic q h = cc

  handle-ok :
      (s t : S) (values : Items)
      → handle p s values ≡ ok t
      → (m : M) × (p.from_iter values ≡ ok m) × (received p (p.recv s m) ≡ ok t)
  unfolding handle
  handle-ok s t values e = by_message (p.from_iter values) refl e
    where
      by_message :
          (o : Outcome M)
          → p.from_iter values ≡ o
          → (Outcome.◌>>=◌ (unwrap o) λ m. received p (p.recv s m)) ≡ ok t
          → (m : M) × (p.from_iter values ≡ ok m) × (received p (p.recv s m) ≡ ok t)
      by_message (ok m) q h = (m, q, h)
      by_message (err x) q h = cc
      by_message panic q h = cc

module _ (codec : Codec) where
  received-May :
      (state : State) (m : Message) (config : Config) (result : List Bytes) (running closing : Bool)
      {t : BlockFetch}
      → let s = at codec config closing state result running in
        received (protocol codec) (recv s m) ≡ ok t → May s (heard m) t
  unfolding recv
  received-May busy no_blocks config result running closing e = refuses (ground arith)
  received-May busy start_batch config result running closing e = starts (ground arith)
  received-May streaming (block b) config result running closing e = gets b (ground arith)
  received-May streaming batch_done config result running closing e = ends (ground arith)
  received-May _ _ config result running closing e = cc

  sent-May :
      (closing : Bool) (state : State) (config : Config) (result : List Bytes) (running : Bool)
      (t : BlockFetch) (b : Bytes)
      → let s = at codec config closing state result running in
        send_bytes (protocol codec) s ≡ ok (b, t)
        → (m : Message) × May s (sent m) t × ((protocol codec).to_bytes m ≡ ok b)
  unfolding send_bytes agency send
  sent-May closing state config result false t b e = cc
  sent-May false idle config result true t b e =
      let (w, q) = encode_sent-ok (protocol codec) _ _ t b e in
      (request_range config.first config.last, asks refl (ground arith), w)
  sent-May true idle config result true t b e =
      let (w, q) = encode_sent-ok (protocol codec) _ _ t b e in
      (client_done, closes refl (ground arith), w)
  sent-May closing busy config result true t b e = cc
  sent-May closing streaming config result true t b e = cc
  sent-May closing State.done config result true t b e = cc

  client-IsTyped : IsTyped (protocol codec) codec May
  client-IsTyped = record {
    sends_typed = λ s t b e. sent-May s.done s.state s.config s.result s.running t b e;
    handles_typed = λ s t values e.
        let (m, q, h) = handle-ok (protocol codec) s t values e in
        (m, received-May s.state m s.config s.result s.running s.done h, q);
  }

  -- Whatever arrives, a call of `run` or of `done`, up to where it ends or waits, unless it panics, is a
  -- path of the exchange. Each message that the client sends or takes in is one that the exchange has in
  -- the client's state, and leads to the next state, with the same range, and with a block that came in
  -- behind those that are held. The messages that it takes in are those that `from_iter` makes of the
  -- items at the front of the bytes that it holds and of the pieces that arrive behind them, one after the
  -- other, with no byte passed over; what is left is held, and where the client waits all pieces have been
  -- read. What it has sent are the bytes of the messages that it sends on this path, in order.
  pub exchange-Follows :
      (fuel : ℕ) (s : BlockFetch) (ch : Channel)
      → Follows
          (protocol codec)
          codec
          May
          (record s { running = true })
          ch.bytes
          ch.inbox
          ch.outbox
          (run codec fuel s ch)
        × Follows
            (protocol codec)
            codec
            May
            (record s { running = true; done = true })
            ch.bytes
            ch.inbox
            ch.outbox
            (finish codec fuel s ch)
  unfolding run finish
  exchange-Follows fuel s ch = (
    execute-Follows (protocol codec) codec May client-IsTyped fuel _ ch.bytes ch.inbox ch.outbox,
    execute-Follows (protocol codec) codec May client-IsTyped fuel _ ch.bytes ch.inbox ch.outbox,
  )
