-- ===== src/Programs/Local.antt =====
-- examples/local.rs: the handshake with a local node, behind the socket whose path is on the command line.
mod Examples
use Prim.Native.String.{String}
use rust_cardano_ouroboros_n.Prelude.{
  ℕ, ◌+◌, ◌<◌, ◌≡◌, ◌≢◌, refl, ap, ◌∙◌, sym, List, [], ◌∷◌, All, length, concat, arith,
}
use rust_cardano_ouroboros_n.Prelude.Int.{IsU32}
use rust_cardano_ouroboros_n.Prelude.Outcome.{could_not_connect, handshake_failed}
use rust_cardano_ouroboros_n.Model.{Bytes}
use rust_cardano_ouroboros_n.Cbor.{Codec, IsCodec}
use rust_cardano_ouroboros_n.Mux.Connect.{
  Attempt, connects, Timeout, IsTimeout, NoStream, NoStream-unix_connect, Connected, made, io_error,
  two_seconds, from_stream, unix_connect,
}
use rust_cardano_ouroboros_n.Protocol.Stream.{encode, IsWritable}
use rust_cardano_ouroboros_n.Handshake.Versions.{Version}
use rust_cardano_ouroboros_n.Handshake.Versions.RoundTrip.{FitsWord}
use rust_cardano_ouroboros_n.Handshake.Messages.{accept_items}
use rust_cardano_ouroboros_n.Handshake.Machine.{ready}
use rust_cardano_ouroboros_n.Handshake.Agreement.{Has, proposal_items}
use rust_cardano_ouroboros_n.Handshake.Builder.{with_clients, versions_of}
use rust_cardano_ouroboros_n.Programs.{
  Config, Ended, finished, failed, waits, panics, out_of_fuel, local, local_builder,
}
use rust_cardano_ouroboros_n.Programs.Opening.{negotiate_as-accept, negotiate_as-silent}

-- What is behind a path: what becomes of the request for a stream, and the payloads that arrive.
pub record Node : Type 0 where
  pub attempt : Attempt
  pub inbox : List Bytes

-- `args.next(); args.next().unwrap_or("test.sock")`.
unfoldable pub socket_path : List String → String
socket_path (program ∷ path ∷ args) = path
socket_path _ = "test.sock"

module _ (codec : Codec) (timeout : Timeout) where
  -- The version is forgotten.
  abbrev after_handshake : Ended (Version × ℕ) → Ended (Unit {0})
  after_handshake (finished v) = finished tt
  after_handshake (failed e) = failed e
  after_handshake waits = waits
  after_handshake panics = panics
  after_handshake out_of_fuel = out_of_fuel

  -- `Connection::unix_connect(socket_path).await?`, and the rest of `local`.
  abbrev pub after_connect : ℕ → ℕ → Node → Connected → Ended (Unit {0})
  after_connect magic fuel node io_error = failed could_not_connect
  after_connect magic fuel node (made c) =
      after_handshake (local codec magic fuel (ready node.inbox []))

  -- `.await.unwrap()` in `main`.
  abbrev pub after_local : Ended (Unit {0}) → Ended (Unit {0})
  after_local (failed e) = panics
  after_local ended = ended

  unfoldable pub main : (String → Node) → ℕ → Config → ℕ → List String → Ended (Unit {0})
  unfolding socket_path
  main files now cfg fuel args =
      let node = files (socket_path args) in
      after_local (after_connect cfg.magic fuel node (unix_connect timeout node.attempt now).0)

  -- A node that gives a stream within two seconds, and then accepts a version in any pieces that are not
  -- empty.
  pub record Welcomes (magic fuel : ℕ) (node : Node) (v : Version) : Type 0 where
    pub fits : FitsWord v
    pub writable : IsWritable codec (accept_items v magic)
    pub full : All (λ piece. piece ≢ []) node.inbox
    pub bytes : concat node.inbox ≡ encode codec (accept_items v magic)
    pub enough : length node.inbox + 1 < fuel

  -- What a node does with a client of this magic, and how the program ends by it.
  pub data Meets (magic fuel : ℕ) (node : Node) : Ended (Unit {0}) → Type 0 where
    unreachable : NoStream two_seconds node.attempt → Meets magic fuel node panics
    silent :
        (t : ℕ)
        → node.attempt ≡ connects t
        → t < two_seconds
        → node.inbox ≡ []
        → Meets magic fuel node waits
    accepts :
        (t : ℕ) (v : Version)
        → node.attempt ≡ connects t
        → t < two_seconds
        → Welcomes magic fuel node v
        → Has v (versions_of with_clients)
        → Meets magic fuel node (finished tt)
    turns_away :
        (t : ℕ) (v : Version)
        → node.attempt ≡ connects t
        → t < two_seconds
        → Welcomes magic fuel node v
        → ¬ Has v (versions_of with_clients)
        → Meets magic fuel node panics

  connected_at :
      (now t : ℕ) (attempt : Attempt)
      → IsTimeout timeout
      → attempt ≡ connects t
      → t < two_seconds
      → (unix_connect timeout attempt now).0 ≡ made (from_stream (now + t))
  unfolding unix_connect
  connected_at now t attempt laws e lt = rw (e, laws.connects_in_time two_seconds t lt)

  module _ (laws : IsCodec codec) (timeout_laws : IsTimeout timeout) (files : String → Node)
      (now : ℕ) (cfg : Config) (fuel : ℕ) where
    abbrev node : List String → Node
    node args = files (socket_path args)

    -- With a stream in time, the program ends as its handshake does.
    main-made :
        (args : List String) (t : ℕ) (handshake : Ended (Version × ℕ))
        → (node args).attempt ≡ connects t
        → t < two_seconds
        → local codec cfg.magic fuel (ready (node args).inbox []) ≡ handshake
        → main files now cfg fuel args ≡ after_local (after_handshake handshake)
    unfolding main
    main-made args t handshake e lt h =
        ap (λ c. after_local (after_connect cfg.magic fuel (node args) c))
          (connected_at now t (node args).attempt timeout_laws e lt)
        ∙ ap (λ x. after_local (after_handshake x)) h

    -- The program `local` looks behind the path of its command line, or `test.sock` if there is none. It
    -- panics if there is no stream within two seconds, and waits for good if the node says nothing. If
    -- the node accepts a version in any pieces that are not empty, the program is done if the version is
    -- one of those for local clients, and panics if not. The magic fits 32 bits, the version 16, the
    -- encoder accepts both messages, and fuel is at least two turns, and two more than pieces.
    pub main-Meets :
        (args : List String) (ended : Ended (Unit {0}))
        → IsU32 cfg.magic
        → IsWritable codec (proposal_items (versions_of with_clients) cfg.magic)
        → 1 < fuel
        → Meets cfg.magic fuel (files (socket_path args)) ended
        → main files now cfg fuel args ≡ ended
    unfolding main local local_builder
    main-Meets args _ hm wp lt (unreachable n) =
        ap (λ c. after_local (after_connect cfg.magic fuel (node args) c))
          (NoStream-unix_connect timeout (node args).attempt now timeout_laws n)
    main-Meets args _ hm wp lt (silent t e in_time q) = main-made args t waits e in_time (
        ap (λ l. local codec cfg.magic fuel (ready l [])) q
        ∙ negotiate_as-silent codec laws with_clients cfg.magic fuel hm wp lt)
    main-Meets args _ hm wp lt (accepts t v e in_time w h) =
        main-made args t (finished (v, cfg.magic)) e in_time (
          (negotiate_as-accept codec laws with_clients cfg.magic v (node args).inbox fuel w.fits hm
              wp w.writable w.full w.bytes w.enough).0
            h)
    main-Meets args _ hm wp lt (turns_away t v e in_time w n) =
        main-made args t (failed handshake_failed) e in_time (
          (negotiate_as-accept codec laws with_clients cfg.magic v (node args).inbox fuel w.fits hm
              wp w.writable w.full w.bytes w.enough).1
            n)
