-- ===== src/BlockFetch/Session.antt =====
-- Whole requests of the block-fetch client: `run`, and then `next` until there are no more blocks.
use rust_cardano_ouroboros_n.Prelude.{
  ℕ, zero, suc, ◌+◌, ◌≤◌, ◌<◌, ◌≡◌, refl, sym, ap, ◌∙◌, List, [], ◌∷◌, ◌++◌, length, length-append,
  Bool, true, false, arith,
}
use rust_cardano_ouroboros_n.Model.{Bytes}
use rust_cardano_ouroboros_n.Cbor.{Codec, IsCodec}
use rust_cardano_ouroboros_n.Protocol.{Channel, Execution, execute}
use rust_cardano_ouroboros_n.BlockFetch.{
  State, idle, streaming, Config, BlockFetch, protocol, next, drain, after_next, Drained,
  all_blocks, and_then, after_execute, pop,
}
use rust_cardano_ouroboros_n.BlockFetch.Machine.{at, stream_values}
use rust_cardano_ouroboros_n.BlockFetch.Fetch.{Incoming, Fetched, some_blocks, whole_batch, fetch}

module _ (codec : Codec) (laws : IsCodec codec) (config : Config) (closing : Bool)
    (later sent : List Bytes) where
  abbrev client_at : State → List Bytes → Bool → BlockFetch
  client_at = at codec config closing

  abbrev channel : Bytes → List Bytes → Channel
  channel held inbox = record { bytes = held; inbox = inbox; outbox = sent }

  abbrev over : List Bytes → Drained
  over bs = all_blocks bs (client_at idle [] false) (channel [] later)

  -- The batch is over: what was received is handed out.
  pub drain-idle :
      (result : List Bytes) (rounds fuel : ℕ)
      → length result < rounds
      → drain codec rounds fuel (client_at idle result false) (channel [] later) ≡ over result
  unfolding drain next
  drain-idle result zero fuel lt = absurd (omega arith)
  drain-idle [] (suc rounds) fuel lt = refl
  drain-idle (b ∷ result) (suc rounds) fuel lt =
      ap (and_then b) (drain-idle result rounds fuel (omega arith))

  pub drain_streaming :
      (result bs : List Bytes) (held : Bytes) (pieces : List Bytes) (rounds fuel : ℕ)
      → length result + length bs < rounds
      → length pieces < fuel
      → Incoming codec held pieces (stream_values bs)
      → drain codec rounds fuel (client_at streaming result false) (channel held (pieces ++ later))
        ≡ over (result ++ bs)
  unfolding drain next
  drain_streaming result bs held pieces zero fuel lt enough i = absurd (omega arith)
  drain_streaming (b ∷ result) bs held pieces (suc rounds) fuel lt enough i =
      ap (and_then b) (drain_streaming result bs held pieces rounds fuel (omega arith) enough i)
  drain_streaming [] bs held pieces (suc rounds) fuel lt enough i =
      go (fetch codec laws config closing pieces held bs fuel later sent i enough)
        λ front back held' pieces' fits shorter j.
          drain_streaming front back held' pieces' rounds fuel fits (omega arith) j
    where
      more : BlockFetch → Channel → Drained
      more = drain codec rounds fuel

      run_on : Execution BlockFetch
      run_on =
          execute (protocol codec) codec fuel (client_at streaming [] true)
            (channel held (pieces ++ later))

      go :
          Fetched codec laws config closing bs (length pieces) later sent run_on
          → ((front back : List Bytes) (held' : Bytes) (pieces' : List Bytes)
              → length front + length back < rounds
              → length pieces' ≤ length pieces
              → Incoming codec held' pieces' (stream_values back)
              → more (client_at streaming front false) (channel held' (pieces' ++ later))
                ≡ over (front ++ back))
          → after_next more (after_execute run_on) ≡ over bs
      go (some_blocks b front back held' pieces' e j le x) ih =
          ap (λ r. after_next more (after_execute r)) x
          ∙ ap (and_then b) (
              ih front back held' pieces' (omega (arith, ap length e, length-append front back)) le
                j)
          ∙ ap over (sym e)
      go (whole_batch x) ih =
          ap (λ r. after_next more (after_execute r)) x ∙ finish bs (omega arith)
        where
          finish :
              (bs : List Bytes)
              → length bs < suc rounds
              → after_next more (pop bs (client_at idle bs false) (channel [] later)) ≡ over bs
          finish [] lt = refl
          finish (b ∷ bs) lt = ap (and_then b) (drain-idle bs rounds fuel (omega arith))
