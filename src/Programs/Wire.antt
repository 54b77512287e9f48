-- ===== src/Programs/Wire.antt =====
-- examples/sync.rs over one connection: from the bytes on the wire to the log. The channel of the
-- handshake is dropped at the end of its statement, and then that of chain-sync is opened.
use rust_cardano_ouroboros_n.Prelude.{
  ℕ, suc, ◌+◌, ◌<◌, ◌≡◌, ◌≢◌, refl, sym, ap, ap₂, ◌∙◌, Option, List, [], ◌∷◌, ◌++◌, All, length,
  concat, none, some, ==_refl, ◌==◌, Bool-cases, inl, inr, ==_iff,
}
use rust_cardano_ouroboros_n.Prelude.Int.{IsU32}
use rust_cardano_ouroboros_n.Model.{Bytes}
use rust_cardano_ouroboros_n.Cbor.{Codec, IsCodec}
use rust_cardano_ouroboros_n.Mux.{Sent, send_all, idle, register}
use rust_cardano_ouroboros_n.Mux.Delivery.{IsWhole, payloads_for, push_all}
use rust_cardano_ouroboros_n.Mux.Connection.{Connection, new, open_channel, run_demux, read_bytes}
use rust_cardano_ouroboros_n.Mux.Connection.Handover.{at, next_channel, next_channel-send_all}
use rust_cardano_ouroboros_n.Protocol.Stream.{encode, IsWritable}
use rust_cardano_ouroboros_n.ChainSync.{
  request_next, find_intersect, to_values, Intersect, channel_id,
}
use rust_cardano_ouroboros_n.Handshake
use rust_cardano_ouroboros_n.ChainSync.Messages.{IsMessage}
use rust_cardano_ouroboros_n.ChainSync.Machine.{intersect_message}
use rust_cardano_ouroboros_n.ChainSync.Session.{ready}
use rust_cardano_ouroboros_n.Handshake.Messages.{accept_items}
use rust_cardano_ouroboros_n.Handshake.Agreement.{Has, proposal_items}
use rust_cardano_ouroboros_n.Handshake.Builder.{with_peers, versions_of}
use rust_cardano_ouroboros_n.Handshake.Versions.{Version}
use rust_cardano_ouroboros_n.Programs.{Config, Log, fails, panicked, awaits_payload, sync_on}
use rust_cardano_ouroboros_n.Prelude.Outcome.{Outcome, ok, err, panic}
use rust_cardano_ouroboros_n.Protocol.{client}
use rust_cardano_ouroboros_n.Programs.Sync.{
  waiting_client, Exchange, IsExchange, replies, inbox, requests, sync-answers,
}

-- A new connection on which bytes have arrived.
abbrev pub connected : Bytes → Connection
connected socket = record new { socket = socket }

opened :
    (i : ℕ) (socket : Bytes)
    → open_channel i (connected socket) ≡ at socket (i ∷ []) (idle (register i (λ k. none)))
unfolding open_channel run_demux new
opened i socket = refl

only : (i : ℕ) (k : ℕ) → k ≢ i → register i (λ j. none) k ≡ none
unfolding register
only i k n = elim (Bool-cases (i == k)) [
  | inl e ↦ absurd (n (sym ((==_iff i k).0 e)))
  | inr e ↦ rw e refl
]

itself : (i : ℕ) → register i (λ j. none) i ≡ some []
unfolding register
itself i = rw (==_refl i)

-- What a channel has got.
abbrev queue : Option (List Bytes) → List Bytes
queue none = []
queue (some payloads) = payloads

module _ (codec : Codec) (blake2b : Bytes → Bytes) (cfg : Config) (rounds fuel early late : ℕ) where
  abbrev with_channel : Connection → Outcome ℕ → Log
  with_channel c (ok i) =
      let used = read_bytes early (open_channel i c) in
      let done = read_bytes late (next_channel i channel_id used) in
      sync_on codec blake2b cfg rounds fuel (ready (queue (used.channels i)) [])
        (ready (queue (done.channels channel_id)) [])
  with_channel c (err e) = ([], fails e)
  with_channel c panic = ([], panicked)

  -- examples/sync.rs, `chainsync`, on a connection: the handshake opens its channel, of which the program
  -- takes what the task puts into its queue from the first `early` bytes, and drops it; then chain-sync
  -- opens its own, into which go the next `late` bytes.
  unfoldable pub sync : Connection → Log
  sync c = with_channel c (Handshake.channel_id client)

-- The program `sync`, from a new connection on which all bytes of the server have arrived: these are whole
-- payloads, `first`, which the task reads until the channel of the handshake is dropped, and then
-- `second`. Those of `first` for channel 0 accept one of the versions 6 and 7; those of `second` for
-- channel 2 answer the search for an intersection in the pieces `start`, and then the requests one after
-- the other; there may be others for any channels among them. Then the program, which opens the channels
-- of its protocols and takes what these get, logs exactly the answers of the server in their order, has
-- sent the search for its three points and one request more than there are answers, and waits for the next
-- one. No payload for the two channels is empty, the numbers of each message are in the ranges of their
-- types, a header can be unwrapped, the encoder accepts all messages, and fuel is two turns more than the
-- pieces of each answer.
pub sync-read_bytes :
    (codec : Codec) (laws : IsCodec codec) (blake2b : Bytes → Bytes) (cfg : Config) (v : Version)
    (write : Bytes → ℕ) (first second : List Sent) (rest : Bytes) (start : List Bytes)
    (intersect : Intersect) (es : List (Exchange codec laws blake2b)) (fuel : ℕ)
    → let points = cfg.byron_mainnet ∷ cfg.byron_testnet ∷ cfg.byron_guild ∷ [] in
      let search = to_values (find_intersect points) in
      let found = to_values (intersect_message intersect) in
      let early = send_all write first in
      let late = send_all write second in
      let welcome = payloads_for 0 first in
      All (IsWhole write) first
      → All (IsWhole write) second
      → Has v (versions_of with_peers)
      → IsU32 cfg.magic
      → IsWritable codec (proposal_items (versions_of with_peers) cfg.magic)
      → IsWritable codec (accept_items v cfg.magic)
      → All (λ piece. piece ≢ []) welcome
      → concat welcome ≡ encode codec (accept_items v cfg.magic)
      → length welcome + 1 < fuel
      → payloads_for 2 second ≡ start ++ inbox codec laws blake2b es
      → IsMessage (intersect_message intersect)
      → IsWritable codec search
      → IsWritable codec found
      → All (λ piece. piece ≢ []) start
      → concat start ≡ encode codec found
      → length start + 1 < fuel
      → IsWritable codec (to_values request_next)
      → All (IsExchange codec laws blake2b fuel) es
      → sync codec blake2b cfg
          (suc (length es))
          fuel
          (length early)
          (length late)
          (connected (early ++ (late ++ rest)))
        ≡ (
          replies codec laws blake2b es,
          awaits_payload waiting_client
              (ready [] (encode codec search ∷ requests codec laws blake2b es))
              [],
        )
unfolding sync Handshake.channel_id
sync-read_bytes codec laws blake2b cfg v write first second rest start intersect es fuel hf hs hv hm
      wp wa nw cw lw e hi ws wf ns cs ls wr he =
    let early = send_all write first in
    let late = send_all write second in
    let start_at = opened 0 (early ++ (late ++ rest)) in
    let (q₁, q₂, _, _, _) =
      next_channel-send_all 0 2 write first second rest (register 0 (λ k. none)) hf hs (only 0) in
    let run : List Bytes → List Bytes → Log = λ welcome answers.
      sync_on codec blake2b cfg (suc (length es)) fuel (ready welcome []) (ready answers []) in
    ap₂ (λ a b. run (queue a) (queue b))
      (ap (λ c. (read_bytes (length early) c).channels 0) start_at
        ∙ q₁
        ∙ ap (push_all (payloads_for 0 first)) (itself 0))
      (ap
          (λ c.
            (read_bytes (length late) (next_channel 0 2 (read_bytes (length early) c))).channels 2)
          start_at
        ∙ q₂
        ∙ ap some e)
    ∙ sync-answers codec laws blake2b cfg v (payloads_for 0 first) start intersect es fuel hv hm wp
        wa nw cw lw hi ws wf ns cs ls wr he
