-- ===== src/Programs/Ping.antt =====
-- examples/ping.rs: every host is pinged, and each ping is logged with the times of its connection.
-- `join_all` runs the pings side by side, each on its own connection; the lines are in the order of the
-- hosts here, which need not be that of the log.
mod Examples
use Prim.Native.String.{String}
use rust_cardano_ouroboros_n.Prelude.{
  ℕ, ◌+◌, ◌-◌, ◌*◌, ◌/◌, ◌<◌, ◌≤◌, ◌≡◌, ◌≢◌, refl, ap, ap₂, ◌∙◌, sym, List, [], ◌∷◌, All, length,
  concat, map, Bool, true, Option, none, some, arith,
}
use rust_cardano_ouroboros_n.Prelude.Int.{IsU32}
use rust_cardano_ouroboros_n.Prelude.Outcome.{
  Outcome, ok, panic, ◌>>=◌, Error, could_not_connect, handshake_failed,
}
use rust_cardano_ouroboros_n.Cbor.{Codec, IsCodec}
use rust_cardano_ouroboros_n.Mux.Connect.{
  Attempt, connects, refuses, hangs, stream, refused, elapsed, Timeout, IsTimeout, Connected, made,
  NoStream, NoStream-tcp_connect, io_error, duration, from_stream, two_seconds, after_tcp,
  tcp_connect,
}
use rust_cardano_ouroboros_n.Protocol.{Channel, client}
use rust_cardano_ouroboros_n.Protocol.Stream.{encode, IsWritable}
use rust_cardano_ouroboros_n.Model.{Bytes}
use rust_cardano_ouroboros_n.Handshake.Versions.{Version}
use rust_cardano_ouroboros_n.Handshake.Versions.RoundTrip.{FitsWord}
use rust_cardano_ouroboros_n.Handshake.Messages.{accept_items}
use rust_cardano_ouroboros_n.Handshake.Machine.{ready}
use rust_cardano_ouroboros_n.Handshake.Agreement.{Has, proposal_items}
use rust_cardano_ouroboros_n.Handshake.Builder.{with_peers, versions_of}
use rust_cardano_ouroboros_n.Programs.{
  Ended, finished, failed, waits, panics, out_of_fuel, with_durations, ping, negotiate_as,
  peer_builder,
}
use rust_cardano_ouroboros_n.Programs.Opening.{negotiate_as-accept}

-- What a host does: what becomes of the request for a stream, whether `set_nodelay` succeeds, how long
-- the handshake takes, and the payloads that arrive.
pub record Host : Type 0 where
  pub attempt : Attempt
  pub nodelay : Bool
  pub handshake_time : ℕ
  pub inbox : List Bytes

-- A line of the log, with milliseconds.
pub data Line : Type 0 where
  success : String → ℕ → ℕ → Line
  failure : String → Error → Line

module _ (codec : Codec) (timeout : Timeout) (magic fuel : ℕ) where
  abbrev pub after_connect : Host → Connected × ℕ → Ended (ℕ × ℕ)
  after_connect host (made c, now) =
      ping codec magic (duration c now) (duration c (now + host.handshake_time)) fuel
        (ready host.inbox [])
  after_connect host (io_error, now) = failed could_not_connect

  -- `ping`, from the start of the program's request.
  unfoldable pub ping_host : ℕ → Host → Ended (ℕ × ℕ)
  ping_host now host = after_connect host (tcp_connect timeout host.attempt host.nodelay now)

  -- A ping that waits logs nothing, and one that panics ends the program, for all run in one task.
  abbrev pub line : String → Ended (ℕ × ℕ) → Outcome (Option Line)
  line name (finished (connect, total)) = ok (some (success name (connect / 1000) (total / 1000)))
  line name (failed e) = ok (some (failure name e))
  line name waits = ok none
  line name panics = panic
  line name out_of_fuel = ok none

  -- The arguments behind the program's name, or the configured host if there are none.
  unfoldable pub hosts : String → List String → Outcome (List String)
  hosts configured [] = panic
  hosts configured (program ∷ []) = ok (configured ∷ [])
  hosts configured (program ∷ name ∷ names) = ok (name ∷ names)

  -- `join_all`.
  unfoldable pub ping_all : (String → Host) → ℕ → List String → Outcome (List (Option Line))
  unfolding ping_host
  ping_all network now [] = ok []
  ping_all network now (name ∷ names) = do
    l ← line name (ping_host now (network name))
    ls ← ping_all network now names
    ok (l ∷ ls)

  abbrev after_hosts : (String → Host) → ℕ → Outcome (List String) → Outcome (List (Option Line))
  after_hosts network now (ok names) = ping_all network now names
  after_hosts network now (Outcome.err e) = Outcome.err e
  after_hosts network now panic = panic

  -- `main`.
  unfoldable pub main : (String → Host) → ℕ → String → List String → Outcome (List (Option Line))
  unfolding hosts ping_all
  main network now configured args = after_hosts network now (hosts configured args)

  -- A host that gives no stream within two seconds, or refuses one, or whose stream cannot be set up.
  pub data Unreachable (host : Host) : Type 0 where
    no_stream : NoStream two_seconds host.attempt → Unreachable host
    no_nodelay :
        (t : ℕ)
        → host.attempt ≡ connects t
        → t < two_seconds
        → host.nodelay ≡ Bool.false
        → Unreachable host

  -- A host that gives a stream within two seconds, and then accepts a version in any pieces that are not
  -- empty.
  pub record Welcomes (host : Host) (v : Version) : Type 0 where
    pub time : ℕ
    pub stream_at : host.attempt ≡ connects time
    pub in_time : time < two_seconds
    pub set_up : host.nodelay ≡ true
    pub fits : FitsWord v
    pub writable : IsWritable codec (accept_items v magic)
    pub full : All (λ piece. piece ≢ []) host.inbox
    pub bytes : concat host.inbox ≡ encode codec (accept_items v magic)
    pub enough : length host.inbox + 1 < fuel

  -- What is logged of a host.
  pub data Logs (host : Host) (name : String) : Option Line → Type 0 where
    no_connection : Unreachable host → Logs host name (some (failure name could_not_connect))
    connected :
        (v : Version)
        → Welcomes host v
        → Has v (versions_of with_peers)
        → Logs host name (some (success name 0 (host.handshake_time / 1000)))
    turned_away :
        (v : Version)
        → Welcomes host v
        → ¬ Has v (versions_of with_peers)
        → Logs host name (some (failure name handshake_failed))

  Unreachable-io_error :
      (now : ℕ) (host : Host)
      → IsTimeout timeout
      → Unreachable host
      → (tcp_connect timeout host.attempt host.nodelay now).0 ≡ io_error
  unfolding tcp_connect
  Unreachable-io_error now host laws (no_stream n) =
      NoStream-tcp_connect timeout host.attempt host.nodelay now laws n
  Unreachable-io_error now host laws (no_nodelay t e lt k) =
      rw (e, laws.connects_in_time two_seconds t lt, k)

  connected_at :
      (now : ℕ) (host : Host) (t : ℕ)
      → IsTimeout timeout
      → host.attempt ≡ connects t
      → t < two_seconds
      → host.nodelay ≡ true
      → tcp_connect timeout host.attempt host.nodelay now ≡ (made (from_stream (now + t)), now + t)
  unfolding tcp_connect
  connected_at now host t laws e lt k = rw (e, laws.connects_in_time two_seconds t lt, k)

  -- The clock of a connection starts when there is a stream.
  duration-from_stream : (now t : ℕ) → duration (from_stream now) (now + t) ≡ t
  unfolding duration from_stream
  duration-from_stream now t = omega arith

  duration_now : (now : ℕ) → duration (from_stream now) now ≡ 0
  unfolding duration from_stream
  duration_now now = omega arith

  after_io_error :
      (host : Host) (c : Connected × ℕ)
      → c.0 ≡ io_error
      → after_connect host c ≡ failed could_not_connect
  after_io_error host (made c, now) e = cc
  after_io_error host (io_error, now) e = refl

  module _ (codec_laws : IsCodec codec) (laws : IsTimeout timeout) (small : IsU32 magic)
      (asks : IsWritable codec (proposal_items (versions_of with_peers) magic)) where
    ping-Welcomes :
        (now : ℕ) (host : Host) (v : Version)
        → Welcomes host v
        → (Has v (versions_of with_peers) → ping_host now host ≡ finished (0, host.handshake_time))
          × (¬ Has v (versions_of with_peers) → ping_host now host ≡ failed handshake_failed)
    unfolding ping_host ping
    ping-Welcomes now host v w =
        let (yes?, no?) =
          negotiate_as-accept codec codec_laws with_peers magic v host.inbox fuel w.fits small asks
            w.writable w.full w.bytes w.enough in
        let t = now + w.time in
        let run =
          ap (after_connect host) (connected_at now host w.time laws w.stream_at w.in_time w.set_up)
          ∙ ap₂
              (λ a b.
                with_durations a b
                  (negotiate_as codec client (peer_builder magic) fuel (ready host.inbox [])))
              (duration_now t) (duration-from_stream t host.handshake_time) in
        (
          (λ h. run ∙ ap (with_durations 0 host.handshake_time) (yes? h)),
          (λ n. run ∙ ap (with_durations 0 host.handshake_time) (no? n)),
        )

    ping_host-Logs :
        (now : ℕ) (host : Host) (name : String) (l : Option Line)
        → Logs host name l
        → line name (ping_host now host) ≡ ok l
    unfolding ping_host
    ping_host-Logs now host name l (no_connection u) =
        ap (line name) (after_io_error host _ (Unreachable-io_error now host laws u))
    ping_host-Logs now host name l (connected v w h) =
        ap (line name) ((ping-Welcomes now host v w).0 h)
    ping_host-Logs now host name l (turned_away v w n) =
        ap (line name) ((ping-Welcomes now host v w).1 n)

    -- Line by line, what is logged of some hosts.
    abbrev pub AllLogs : (String → Host) → List String → List (Option Line) → Type 0
    AllLogs network [] [] = Unit {0}
    AllLogs network (name ∷ names) (l ∷ lines) =
        Logs (network name) name l × AllLogs network names lines
    AllLogs network [] (l ∷ lines) = ⊥
    AllLogs network (name ∷ names) [] = ⊥

    ping_all-AllLogs :
        (network : String → Host) (now : ℕ) (names : List String) (lines : List (Option Line))
        → AllLogs network names lines
        → ping_all network now names ≡ ok lines
    unfolding ping_all
    ping_all-AllLogs network now [] [] h = refl
    ping_all-AllLogs network now (name ∷ names) (l ∷ lines) (h, hs) =
        rw (ping_host-Logs now (network name) name l h, ping_all-AllLogs network now names lines hs)
    ping_all-AllLogs network now [] (l ∷ lines) h = absurd h
    ping_all-AllLogs network now (name ∷ names) [] h = absurd h

    -- The hosts of a command line: those behind the program's name, or else the configured one.
    abbrev pub targets : String → List String → List String
    targets configured [] = configured ∷ []
    targets configured (name ∷ names) = name ∷ names

    -- If each host of the command line, or the configured host if there is none, is one of the following,
    -- then the program `ping` does not panic, and logs one line for each of them. A host that gives no stream within two seconds, or refuses one, or whose stream
    -- cannot be set up, could not be connected to. A host that gives one in time, and accepts one of the
    -- versions 6 and 7 in any pieces that are not empty, is a success: its connect time is 0, however
    -- long it took to give the stream, since the clock starts when there is one, and its total time is
    -- that of the handshake alone. A host that accepts another version, which fits 16 bits, has failed
    -- in the handshake. The magic fits 32 bits, the encoder accepts the proposal and each acceptance, and
    -- fuel is two turns more than the pieces of each host.
    pub main-AllLogs :
        (network : String → Host) (now : ℕ) (configured program : String) (names : List String)
        (lines : List (Option Line))
        → AllLogs network (targets configured names) lines
        → main network now configured (program ∷ names) ≡ ok lines
    unfolding main
    main-AllLogs network now configured program [] lines h =
        ping_all-AllLogs network now (configured ∷ []) lines h
    main-AllLogs network now configured program (name ∷ names) lines h =
        ping_all-AllLogs network now (name ∷ names) lines h
