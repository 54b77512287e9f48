-- ===== src/Programs/Sync.antt =====
-- examples/sync.rs: the program logs what the server answers, in order, and then waits.
use rust_cardano_ouroboros_n.Prelude.{
  ℕ, suc, ◌+◌, ◌-◌, ◌<◌, ◌≡◌, ◌≢◌, refl, ap, subst, inl, inr, ◌∙◌, List, [], ◌∷◌, ◌++◌,
  append_assoc, All, length, concat, none, some, map, arith,
}
use rust_cardano_ouroboros_n.Prelude.Int.{IsU32}
use rust_cardano_ouroboros_n.Model.{Bytes}
use rust_cardano_ouroboros_n.Cbor.{Codec, IsCodec}
use rust_cardano_ouroboros_n.Protocol.Stream.{encode, encode_all, IsWritable}
use rust_cardano_ouroboros_n.Protocol.Execute.{execute_send, execute_wait, send_bytes-send}
use rust_cardano_ouroboros_n.ChainSync.{
  ChainSync, idle, can_await, Message, request_next, find_intersect, to_values, Intersect, Reply,
  for_reply, agency, send, protocol, Answer, ask_next, after_execute, take_reply, client_new,
}
use rust_cardano_ouroboros_n.ChainSync.Messages.{IsMessage}
use rust_cardano_ouroboros_n.ChainSync.Machine.{intersect_message, awaits, Answers}
use rust_cardano_ouroboros_n.ChainSync.Session.{ready, ask_next_answered, ask_intersect_answered}
use rust_cardano_ouroboros_n.Handshake.Versions.RoundTrip.{FitsWord}
use rust_cardano_ouroboros_n.Handshake.Messages.{accept_items}
use rust_cardano_ouroboros_n.Handshake.Agreement.{Has, proposal_items}
use rust_cardano_ouroboros_n.Handshake.Builder.{with_peers, versions_of}
use rust_cardano_ouroboros_n.Programs.Opening.{negotiate_as-accept}
use rust_cardano_ouroboros_n.Handshake.Versions.{Version}
use rust_cardano_ouroboros_n.Programs.{
  Config, awaits_payload, and_log, after_answer, after_handshake, follow, sync_on,
}

-- A client without a query that has come to an answer of the server's.
abbrev pub waiting_client : ChainSync
waiting_client = record {
  query = some for_reply;
  intersect = none;
  reply = none;
  state = can_await;
}

-- The versions of the programs fit 16 bits.
pub Has-FitsWord : (v : Version) → Has v (versions_of with_peers) → FitsWord v
Has-FitsWord v h = elim h [
  | inl e ↦ subst FitsWord e (omega arith)
  | inr k ↦ elim k [ inl e ↦ subst FitsWord e (omega arith) | inr f ↦ absurd f ]
]

module _ (codec : Codec) (laws : IsCodec codec) (blake2b : Bytes → Bytes) where
  -- An answer to one request: how often the server lets the client wait, its answer, what the client
  -- makes of it, and the pieces in which all of it comes.
  pub record Exchange : Type 0 where
    pub waits : ℕ
    pub message : Message
    pub reply : Reply
    pub pieces : List Bytes

  abbrev pub messages : Exchange → List Message
  messages e = awaits e.waits ++ e.message ∷ []

  pub record IsExchange (fuel : ℕ) (e : Exchange) : Type 0 where
    pub answers : Answers codec blake2b e.message e.reply
    pub ranges : IsMessage e.message
    pub writable : All (IsWritable codec) (map to_values (messages e))
    pub full : All (λ piece. piece ≢ []) e.pieces
    pub bytes : concat e.pieces ≡ encode_all codec (map to_values (messages e))
    pub enough : length e.pieces + 1 < fuel

  abbrev pub replies : List Exchange → List Reply
  replies [] = []
  replies (e ∷ es) = e.reply ∷ replies es

  abbrev pub inbox : List Exchange → List Bytes
  inbox [] = []
  inbox (e ∷ es) = e.pieces ++ inbox es

  -- As many requests as answers, and one.
  abbrev pub requests : List Exchange → List Bytes
  requests [] = encode codec (to_values request_next) ∷ []
  requests (e ∷ es) = encode codec (to_values request_next) ∷ requests es

  -- Nothing arrives: the request goes out, and the client waits.
  pub ask_next_waits :
      (fuel : ℕ) (sent : List Bytes)
      → IsWritable codec (to_values request_next)
      → 1 < fuel
      → ask_next codec blake2b fuel client_new (ready [] sent)
        ≡ Answer.waiting waiting_client
            (ready [] (sent ++ encode codec (to_values request_next) ∷ []))
            []
  unfolding ask_next agency send client_new
  ask_next_waits fuel sent w lt =
      let k = fuel - 2 in
      let e : fuel ≡ suc (suc k) = omega arith in
      rw e (
        ap (after_execute λ s' ch'. take_reply s'.reply s' ch') (
          execute_send (protocol codec blake2b) codec (suc k)
            (record { query = some for_reply; intersect = none; reply = none; state = idle }) _ refl
            refl
            (send_bytes-send (protocol codec blake2b) _ waiting_client request_next _ refl refl
              (rw w))
          ∙ execute_wait (protocol codec blake2b) codec k waiting_client [] _ (refl, refl)))

  follow-answers :
      (es : List Exchange) (fuel : ℕ) (sent : List Bytes)
      → IsWritable codec (to_values request_next)
      → All (IsExchange fuel) es
      → 1 < fuel
      → follow codec blake2b (suc (length es)) fuel client_new (ready (inbox es) sent)
        ≡ (replies es, awaits_payload waiting_client (ready [] (sent ++ requests es)) [])
  unfolding follow client_new
  follow-answers [] fuel sent wr h lt = ap (after_answer _) (ask_next_waits fuel sent wr lt)
  follow-answers (e ∷ es) fuel sent wr (h, hs) lt =
      ap (after_answer _) (
        ask_next_answered codec laws blake2b client_new e.pieces (inbox es) sent fuel e.waits
          e.message e.reply refl h.answers h.ranges wr h.writable h.full h.bytes h.enough)
      ∙ ap (and_log e.reply) (
          follow-answers es fuel (sent ++ encode codec (to_values request_next) ∷ []) wr hs lt
          ∙ ap (λ out. (replies es, awaits_payload waiting_client (ready [] out) []))
              (append_assoc sent (encode codec (to_values request_next) ∷ []) (requests es)))

  -- The program `sync`, from a connection that is made: the server accepts one of the versions 6 and 7 in
  -- the pieces `welcome`, answers the search for an intersection in the pieces `start`, and then the
  -- requests one after the other. The program logs exactly the answers of the server in their order, has
  -- sent the search for its three points and one request more than there are answers, and waits for the
  -- next one. No piece is empty, the numbers of each message are in the ranges of their types, a header
  -- can be unwrapped, the encoder accepts all messages, and fuel is two turns more than the pieces of each
  -- answer.
  pub sync-answers :
      (cfg : Config) (v : Version) (welcome start : List Bytes) (intersect : Intersect)
      (es : List Exchange) (fuel : ℕ)
      → let points = cfg.byron_mainnet ∷ cfg.byron_testnet ∷ cfg.byron_guild ∷ [] in
        let search = to_values (find_intersect points) in
        let found = to_values (intersect_message intersect) in
        Has v (versions_of with_peers)
        → IsU32 cfg.magic
        → IsWritable codec (proposal_items (versions_of with_peers) cfg.magic)
        → IsWritable codec (accept_items v cfg.magic)
        → All (λ piece. piece ≢ []) welcome
        → concat welcome ≡ encode codec (accept_items v cfg.magic)
        → length welcome + 1 < fuel
        → IsMessage (intersect_message intersect)
        → IsWritable codec search
        → IsWritable codec found
        → All (λ piece. piece ≢ []) start
        → concat start ≡ encode codec found
        → length start + 1 < fuel
        → IsWritable codec (to_values request_next)
        → All (IsExchange fuel) es
        → sync_on codec blake2b cfg
            (suc (length es))
            fuel
            (ready welcome [])
            (ready (start ++ inbox es) [])
          ≡ (
            replies es,
            awaits_payload waiting_client (ready [] (encode codec search ∷ requests es)) [],
          )
  unfolding sync_on client_new
  sync-answers cfg v welcome start intersect es fuel hv hm wp wa nw cw lw hi ws wf ns cs ls wr he =
      ap (after_handshake _) (
        (negotiate_as-accept codec laws with_peers cfg.magic v welcome fuel (Has-FitsWord v hv) hm
            wp wa nw cw lw).0
          hv)
      ∙ ap (after_answer _) (
          ask_intersect_answered codec laws blake2b client_new start (inbox es) [] fuel _ intersect
            refl hi ws wf ns cs ls)
      ∙ follow-answers es fuel (encode codec _ ∷ []) wr he (omega arith)
