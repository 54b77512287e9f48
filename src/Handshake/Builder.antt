-- ===== src/Handshake/Builder.antt =====
-- Every handshake that the builder can make, and what two of them come to.
use rust_cardano_ouroboros_n.Prelude.{
  ℕ, ◌+◌, ◌<◌, ◌≡◌, ◌≢◌, inl, inr, refl, ap, subst, arith, List, [], ◌∷◌, All, length, concat,
  last?, some, none,
}
use rust_cardano_ouroboros_n.Prelude.Int.{IsU32, pos}
use rust_cardano_ouroboros_n.Prelude.Outcome.{Outcome, ok, err, handshake_failed}
use rust_cardano_ouroboros_n.Model.{Bytes}
use rust_cardano_ouroboros_n.Cbor.{Codec, IsCodec}
use rust_cardano_ouroboros_n.Protocol.{Agency, client, server}
use rust_cardano_ouroboros_n.Protocol.Stream.{encode, IsWritable}
use rust_cardano_ouroboros_n.Handshake.{
  Handshake, propose, HandshakeBuilder, builder, network_magic, node_to_node, client_to_node,
  channel_id, build, proposals, negotiate,
}
use rust_cardano_ouroboros_n.Handshake.Versions.{Version, n2n, c2n}
use rust_cardano_ouroboros_n.Handshake.Versions.RoundTrip.{FitsWord}
use rust_cardano_ouroboros_n.Handshake.Messages.{IsOrdered, accept_items}
use rust_cardano_ouroboros_n.Handshake.Machine.{ready}
use rust_cardano_ouroboros_n.Handshake.Agreement.{Has, Returns, proposal_items, negotiate_agreement}

-- A call of a method of the builder.
pub data Call : Type 0 where
  sets_magic : ℕ → Call
  sets_node_to_node sets_client_to_node : Call

abbrev pub call : Call → HandshakeBuilder → HandshakeBuilder
call (sets_magic magic) b = network_magic magic b
call sets_node_to_node b = node_to_node b
call sets_client_to_node b = client_to_node b

unfoldable pub configure : List Call → HandshakeBuilder → HandshakeBuilder
configure [] b = b
configure (c ∷ calls) b = configure calls (call c b)

-- `client` and `server`.
abbrev pub client_of : HandshakeBuilder → Outcome Handshake
client_of b = build b client

abbrev pub server_of : HandshakeBuilder → Outcome Handshake
server_of b = build b server

-- What a list of calls asks for: the last mode, and the last magic.
pub data Mode : Type 0 where
  with_peers with_clients : Mode

abbrev pub mode_from : Mode → List Call → Mode
mode_from mode [] = mode
mode_from mode (sets_magic magic ∷ calls) = mode_from mode calls
mode_from mode (sets_node_to_node ∷ calls) = mode_from with_peers calls
mode_from mode (sets_client_to_node ∷ calls) = mode_from with_clients calls

abbrev pub magic_from : ℕ → List Call → ℕ
magic_from magic [] = magic
magic_from magic (sets_magic new ∷ calls) = magic_from new calls
magic_from magic (sets_node_to_node ∷ calls) = magic_from magic calls
magic_from magic (sets_client_to_node ∷ calls) = magic_from magic calls

abbrev pub IsCall : Call → Type 0
IsCall (sets_magic magic) = IsU32 magic
IsCall _ = Unit {0}

abbrev pub versions_of : Mode → List Version
versions_of with_peers = n2n (pos 6) ∷ n2n (pos 7) ∷ []
versions_of with_clients = c2n (pos 9) ∷ []

abbrev pub newest : Mode → Version
newest with_peers = n2n (pos 7)
newest with_clients = c2n (pos 9)

configure-from :
    (calls : List Call) (mode : Mode) (magic : ℕ)
    → configure calls (record { versions = versions_of mode; magic = magic })
      ≡ record { versions = versions_of (mode_from mode calls); magic = magic_from magic calls }
unfolding configure network_magic node_to_node client_to_node
configure-from [] mode magic = refl
configure-from (sets_magic new ∷ calls) mode magic = configure-from calls mode new
configure-from (sets_node_to_node ∷ calls) mode magic = configure-from calls with_peers magic
configure-from (sets_client_to_node ∷ calls) mode magic = configure-from calls with_clients magic

magic_from-IsU32 :
    (calls : List Call) (magic : ℕ)
    → IsU32 magic
    → All IsCall calls
    → IsU32 (magic_from magic calls)
magic_from-IsU32 [] magic h k = h
magic_from-IsU32 (sets_magic new ∷ calls) magic h (k, ks) = magic_from-IsU32 calls new k ks
magic_from-IsU32 (sets_node_to_node ∷ calls) magic h (k, ks) = magic_from-IsU32 calls magic h ks
magic_from-IsU32 (sets_client_to_node ∷ calls) magic h (k, ks) = magic_from-IsU32 calls magic h ks

-- The mode and the magic after some calls on a new builder.
abbrev pub mode_of : List Call → Mode
mode_of = mode_from with_peers

abbrev pub magic_of : List Call → ℕ
magic_of = magic_from 0

-- A fresh handshake of a mode.
abbrev pub fresh : Mode → ℕ → Agency → Handshake
fresh mode magic role = record {
  role = role;
  versions = versions_of mode;
  network_magic = magic;
  state = propose;
  version = none;
}

-- However the methods of a new builder are called, `client` and `server` succeed, and give a fresh
-- handshake with the versions of the last mode that was set, which is node-to-with_peers before any is, and
-- with the last magic, which is 0 before any is set.
pub build-configure :
    (calls : List Call)
    → (client_of (configure calls builder) ≡ ok (fresh (mode_of calls) (magic_of calls) client))
      × (server_of (configure calls builder) ≡ ok (fresh (mode_of calls) (magic_of calls) server))
unfolding build channel_id builder
build-configure calls =
    let e = configure-from calls with_peers 0 in (ap client_of e, ap server_of e)

pub proposals-IsOrdered :
    (mode : Mode) (magic : ℕ) → IsU32 magic → IsOrdered (proposals (versions_of mode) magic)
proposals-IsOrdered with_peers magic h =
    ((omega arith, omega arith), h, (omega arith, tt), ((omega arith, omega arith), h, tt, tt))
proposals-IsOrdered with_clients magic h = ((omega arith, omega arith), h, tt, tt)

newest-last :
    (mode : Mode) → (last? (versions_of mode) ≡ some (newest mode)) × FitsWord (newest mode)
newest-last with_peers = (refl, omega arith)
newest-last with_clients = (refl, omega arith)

has_newest : (mode : Mode) → Has (newest mode) (versions_of mode)
has_newest with_peers = inr (inl refl)
has_newest with_clients = inl refl

has_other : (m n : Mode) → m ≢ n → ¬ Has (newest n) (versions_of m)
has_other with_peers with_peers d h = d refl
has_other with_clients with_clients d h = d refl
has_other with_peers with_clients d h = elim h [
  | inl e ↦ cc
  | inr k ↦ elim k [ inl e ↦ cc | inr f ↦ f ]
]
has_other with_clients with_peers d h = elim h [ inl e ↦ cc | inr f ↦ f ]

module _ (codec : Codec) (laws : IsCodec codec) (calls other_calls : List Call)
    (to_server to_client : List Bytes) (fuel : ℕ) where
  -- A client and a server, each made by any calls on a new builder, with 32-bit magics that come out the
  -- same, exchange their messages, cut into any pieces that are not empty on the way; the encoder accepts
  -- both messages, and fuel is two turns more than all pieces. The server returns the newest version of
  -- its mode, node-to-node 7 or client-to-node 9. The client returns the same if its mode is the same,
  -- and it fails if not.
  pub negotiate-configure :
      {c s : Handshake}
      → client_of (configure calls builder) ≡ ok c
      → server_of (configure other_calls builder) ≡ ok s
      → All IsCall calls
      → magic_of calls ≡ magic_of other_calls
      → let magic = magic_of other_calls in
        let proposal = proposal_items (versions_of (mode_of calls)) (magic_of calls) in
        let accepted = newest (mode_of other_calls) in
        let acceptance = accept_items accepted magic in
        IsWritable codec proposal
        → IsWritable codec acceptance
        → All (λ piece. piece ≢ []) to_server
        → All (λ piece. piece ≢ []) to_client
        → concat to_server ≡ encode codec proposal
        → concat to_client ≡ encode codec acceptance
        → length to_server + length to_client + 1 < fuel
        → Returns (negotiate codec fuel s (ready to_server [])) (ok (accepted, magic))
          × (mode_of calls ≡ mode_of other_calls
              → Returns (negotiate codec fuel c (ready to_client [])) (ok (accepted, magic)))
          × (mode_of calls ≢ mode_of other_calls
              → Returns (negotiate codec fuel c (ready to_client [])) (err handshake_failed))
  negotiate-configure {c} {s} ec es hc magics wp wa ns nc ps pc lt =
      let small = magic_from-IsU32 calls 0 (omega arith) hc in
      let (by_server, alike, apart) =
        negotiate_agreement codec laws (fresh (mode_of calls) (magic_of calls) client)
          (fresh (mode_of other_calls) (magic_of other_calls) server) (newest (mode_of other_calls))
          to_server to_client fuel refl refl refl refl magics (subst IsU32 magics small)
          (proposals-IsOrdered (mode_of calls) (magic_of calls) small)
          (newest-last (mode_of other_calls)).0 (newest-last (mode_of other_calls)).1 wp wa ns nc ps
          pc lt in
      rw (same_client, same_server)
        (
          by_server,
          (λ e. alike (
              subst (λ m. Has (newest m) (versions_of (mode_of calls))) e
                (has_newest (mode_of calls)))),
          (λ n. apart (has_other (mode_of calls) (mode_of other_calls) n)),
        )
    where
      same_client : c ≡ fresh (mode_of calls) (magic_of calls) client
      same_client = cc (ec, (build-configure calls).0)

      same_server : s ≡ fresh (mode_of other_calls) (magic_of other_calls) server
      same_server = cc (es, (build-configure other_calls).1)
