-- ===== src/BlockFetch/Typed/Examples.antt =====
-- A concrete run as a path of the exchange.
use rust_cardano_ouroboros_n.Prelude.{[], ◌∷◌, false, true}
use rust_cardano_ouroboros_n.Model.{Point}
use rust_cardano_ouroboros_n.Cbor.Sample.{sample}
use rust_cardano_ouroboros_n.Protocol.{Channel}
use rust_cardano_ouroboros_n.Protocol.Stream.{encode}
use rust_cardano_ouroboros_n.Protocol.Traces.{Follows}
use rust_cardano_ouroboros_n.BlockFetch.{
  State, BlockFetch, no_blocks, to_values, protocol, run, finish,
}
use rust_cardano_ouroboros_n.BlockFetch.Machine.{at}
use rust_cardano_ouroboros_n.BlockFetch.Typed.{May, exchange-Follows}

abbrev here : Point
here = record { slot = 42; hash = 1 ∷ 2 ∷ [] }

abbrev client : BlockFetch
client = at sample (record { first = here; last = here }) false State.idle [] false

abbrev channel : Channel
channel = record { bytes = []; inbox = encode sample (to_values no_blocks) ∷ []; outbox = [] }

exchange-Follows_example :
    Follows
      (protocol sample)
      sample
      May
      (record client { running = true })
      []
      channel.inbox
      []
      (run sample 3 client channel)
    × Follows
        (protocol sample)
        sample
        May
        (record client { running = true; done = true })
        []
        channel.inbox
        []
        (finish sample 3 client channel)
exchange-Follows_example = exchange-Follows sample 3 client channel
