-- ===== src/Programs.antt =====
-- examples/: what the example programs do with the library, once they are connected. A program that
-- waits for a payload that does not come is not at its end.
pub mod Opening
pub mod Sync
pub mod FollowTip
pub mod Wire
pub mod Ping
pub mod Local
pub mod Fetching
pub mod Serving
pub mod Store
mod Examples
use Prim.Native.String.{String}
use rust_cardano_ouroboros_n.Prelude.{ℕ, zero, suc, List, [], ◌∷◌, none, Bool, true, false}
use rust_cardano_ouroboros_n.Prelude.Outcome.{Outcome, ok, err, panic, ◌>>=◌, unwrap, Error}
use rust_cardano_ouroboros_n.Model.{Bytes, Point, Tip, BlockHeader, point_try_from, tip_into_point}
use rust_cardano_ouroboros_n.Cbor.{Codec}
use rust_cardano_ouroboros_n.Protocol.{Agency, client, server, Channel}
use rust_cardano_ouroboros_n.Handshake.Versions.{Version}
use rust_cardano_ouroboros_n.Handshake.{
  Handshake, HandshakeBuilder, builder, network_magic, node_to_node, client_to_node, build,
  Negotiation, negotiated, negotiate,
}
use rust_cardano_ouroboros_n.Programs.Store.{same_bytes}
use rust_cardano_ouroboros_n.ChainSync.{
  ChainSync, client_new, Reply, forward, backward, Intersect, found, not_found, Answer, answered,
  ask_intersect, ask_next,
}

-- examples/common.rs, `Config`: what the protocols need of it.
pub record Config : Type 0 where
  pub magic : ℕ
  pub byron_mainnet : Point
  pub byron_testnet : Point
  pub byron_guild : Point

-- `Config::new`, over the hex decoder.
unfoldable pub init : (String → Outcome Bytes) → Outcome Config
init decode =
    unwrap (
      point_try_from decode 4492799
        "f8084c61b6a238acec985b59310b6ecec49c0ab8352249afd7268da5cff2a457")
    >>= λ mainnet.
        unwrap (
          point_try_from decode 1598399
            "7e16781b40ebf8b6da18f7b5e8ade855d6738095ef2f1c58c77e88b6e45997a4")
        >>= λ testnet.
            unwrap (
              point_try_from decode 719
                "e5400faf19e712ebc5ff5b4b44cecb2b140d1cca25a011e36a91d89e97f53e2e")
            >>= λ guild. ok (record {
              magic = 764824073;
              byron_mainnet = mainnet;
              byron_testnet = testnet;
              byron_guild = guild;
            })

-- How a part of a program ends: with a value, with an error that `?` passes on, at an `await`, or by a
-- panic. `out_of_fuel` has no counterpart in the program.
pub data Ended (A : Type 0) : Type 0 where
  finished : A → Ended A
  failed : Error → Ended A
  waits panics out_of_fuel : Ended A

abbrev after_negotiate : Negotiation → Ended (Version × ℕ)
after_negotiate (negotiated (ok v) s ch) = finished v
after_negotiate (negotiated (err e) s ch) = failed e
after_negotiate (negotiated panic s ch) = panics
after_negotiate (Negotiation.waiting s ch held) = waits
after_negotiate Negotiation.panicked = panics
after_negotiate Negotiation.stuck = out_of_fuel

abbrev after_build : Codec → ℕ → Channel → Outcome Handshake → Ended (Version × ℕ)
after_build codec fuel ch (ok s) = after_negotiate (negotiate codec fuel s ch)
after_build codec fuel ch (err e) = failed e
after_build codec fuel ch panic = panics

-- `.client(&mut connection)?.negotiate().await?`, and the same with `server`.
unfoldable pub negotiate_as : Codec → Agency → HandshakeBuilder → ℕ → Channel → Ended (Version × ℕ)
negotiate_as codec role b fuel ch = after_build codec fuel ch (build b role)

-- `handshake::builder().node_to_node().network_magic(magic)`.
unfoldable pub peer_builder : ℕ → HandshakeBuilder
unfolding builder node_to_node network_magic
peer_builder magic = network_magic magic (node_to_node builder)

-- `handshake::builder().client_to_node().network_magic(magic)`.
unfoldable pub local_builder : ℕ → HandshakeBuilder
unfolding builder client_to_node network_magic
local_builder magic = network_magic magic (client_to_node builder)

-- examples/local.rs and examples/server.rs, `handle`, after the connection is made.
unfoldable pub local : Codec → ℕ → ℕ → Channel → Ended (Version × ℕ)
unfolding local_builder
local codec magic fuel ch = negotiate_as codec client (local_builder magic) fuel ch

unfoldable pub serve : Codec → Config → ℕ → Channel → Ended (Version × ℕ)
unfolding peer_builder
serve codec cfg fuel ch = negotiate_as codec server (peer_builder cfg.magic) fuel ch

-- examples/ping.rs, `ping`: the durations that the connection gives before and after the handshake.
abbrev with_durations : ℕ → ℕ → Ended (Version × ℕ) → Ended (ℕ × ℕ)
with_durations connect total (finished v) = finished (connect, total)
with_durations connect total (failed e) = failed e
with_durations connect total waits = waits
with_durations connect total panics = panics
with_durations connect total out_of_fuel = out_of_fuel

unfoldable pub ping : Codec → ℕ → ℕ → ℕ → ℕ → Channel → Ended (ℕ × ℕ)
unfolding peer_builder
ping codec magic connect total fuel ch =
    with_durations connect total (negotiate_as codec client (peer_builder magic) fuel ch)

-- Where a program that follows the chain has come to.
pub data Stop : Type 0 where
  goes_on : ChainSync → Channel → Stop
  awaits_payload : ChainSync → Channel → Bytes → Stop
  fails : Error → Stop
  handshake_waits panicked stuck : Stop

-- What it has logged so far, and where it is.
abbrev pub LogOf : Type 0 → Type 0
LogOf Line = List Line × Stop

abbrev pub Log : Type 0
Log = LogOf Reply

-- A line of the log of `tip`: where it begins, an answer, or that this is the tip.
pub data TipLine : Type 0 where
  begins : Point → Tip → TipLine
  answers : Reply → TipLine
  reached_tip : TipLine

module _ {Line : Type 0} where
  abbrev pub and_log : Line → LogOf Line → LogOf Line
  and_log line (lines, stop) = (line ∷ lines, stop)

  abbrev pub after_answer :
      {A : Type 0} → (A → ChainSync → Channel → LogOf Line) → Answer A → LogOf Line
  after_answer more (answered a s ch) = more a s ch
  after_answer more (Answer.waiting s ch held) = ([], awaits_payload s ch held)
  after_answer more Answer.panicked = ([], panicked)
  after_answer more Answer.stuck = ([], stuck)

  abbrev pub after_handshake : LogOf Line → Ended (Version × ℕ) → LogOf Line
  after_handshake more (finished v) = more
  after_handshake more (failed e) = ([], fails e)
  after_handshake more waits = ([], handshake_waits)
  after_handshake more panics = ([], panicked)
  after_handshake more out_of_fuel = ([], stuck)

-- `if header.hash == tip.hash`.
abbrev pub log_reached : Bool → LogOf TipLine → LogOf TipLine
log_reached true later = and_log reached_tip later
log_reached false later = later

module _ (codec : Codec) (blake2b : Bytes → Bytes) where
  -- examples/sync.rs: the loop, some rounds of it.
  unfoldable pub follow : ℕ → ℕ → ChainSync → Channel → Log
  follow zero fuel s ch = ([], goes_on s ch)
  follow (suc rounds) fuel s ch =
      after_answer (λ reply s' ch'. and_log reply (follow rounds fuel s' ch'))
        (ask_next codec blake2b fuel s ch)

  -- `chainsync`, on the payloads that the channels of the handshake and of chain-sync get.
  unfoldable pub sync_on : Config → ℕ → ℕ → Channel → Channel → Log
  unfolding peer_builder
  sync_on cfg rounds fuel handshake_channel ch =
      after_handshake
        (after_answer (λ intersect s' ch'. follow rounds fuel s' ch')
          (ask_intersect codec blake2b fuel
            (cfg.byron_mainnet ∷ cfg.byron_testnet ∷ cfg.byron_guild ∷ []) client_new ch))
        (negotiate_as codec client (peer_builder cfg.magic) fuel handshake_channel)

  -- examples/tip.rs: the loop. After a block it looks for the tip.
  abbrev pub step_tip :
      (ChainSync → Channel → LogOf TipLine) → ℕ → Reply → ChainSync → Channel → LogOf TipLine
  step_tip more fuel (forward header tip) s ch = and_log (answers (forward header tip)) (
      log_reached (same_bytes header.hash tip.hash) (
        after_answer (λ intersect s' ch'. more s' ch')
          (ask_intersect codec blake2b fuel (tip_into_point tip ∷ []) s ch)))
  step_tip more fuel (backward point tip) s ch = and_log (answers (backward point tip)) (more s ch)

  unfoldable pub follow_tip : ℕ → ℕ → ChainSync → Channel → LogOf TipLine
  follow_tip zero fuel s ch = ([], goes_on s ch)
  follow_tip (suc rounds) fuel s ch =
      after_answer (step_tip (follow_tip rounds fuel) fuel) (ask_next codec blake2b fuel s ch)

  -- A chain without any of the points is a panic.
  abbrev pub found_tip :
      (ChainSync → Channel → LogOf TipLine) → Intersect → ChainSync → Channel → LogOf TipLine
  found_tip more (found point tip) s ch = and_log (begins point tip) (more s ch)
  found_tip more (not_found tip) s ch = ([], panicked)

  unfoldable pub tip : Config → ℕ → ℕ → Channel → Channel → LogOf TipLine
  unfolding peer_builder
  tip cfg rounds fuel handshake_channel ch =
      after_handshake
        (after_answer (found_tip (follow_tip rounds fuel)) (
          ask_intersect codec blake2b fuel
            (cfg.byron_mainnet ∷ cfg.byron_testnet ∷ cfg.byron_guild ∷ []) client_new ch))
        (negotiate_as codec client (peer_builder cfg.magic) fuel handshake_channel)
