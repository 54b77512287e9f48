-- ===== src/Programs/FollowTip.antt =====
-- examples/tip.rs: after every block the program looks for the tip that came with it.
use rust_cardano_ouroboros_n.Prelude.{
  ℕ, suc, ◌+◌, ◌<◌, ◌≡◌, ◌≢◌, refl, ap, ◌∙◌, List, [], ◌∷◌, ◌++◌, append_assoc, All, length, concat,
  Bool, true, false, arith,
}
use rust_cardano_ouroboros_n.Prelude.Int.{IsU32}
use rust_cardano_ouroboros_n.Model.{Bytes, Point, Tip, tip_into_point}
use rust_cardano_ouroboros_n.Cbor.{Codec, IsCodec}
use rust_cardano_ouroboros_n.Protocol.Stream.{encode, IsWritable}
use rust_cardano_ouroboros_n.ChainSync.{
  ChainSync, request_next, find_intersect, to_values, Intersect, found, not_found, Reply, forward,
  backward, client_new,
}
use rust_cardano_ouroboros_n.ChainSync.Messages.{IsMessage}
use rust_cardano_ouroboros_n.ChainSync.Machine.{intersect_message}
use rust_cardano_ouroboros_n.ChainSync.Session.{ready, ask_next_answered, ask_intersect_answered}
use rust_cardano_ouroboros_n.Protocol.{Channel}
use rust_cardano_ouroboros_n.Handshake.Versions.{Version}
use rust_cardano_ouroboros_n.Handshake.Messages.{accept_items}
use rust_cardano_ouroboros_n.Handshake.Agreement.{Has, proposal_items}
use rust_cardano_ouroboros_n.Handshake.Builder.{with_peers, versions_of}
use rust_cardano_ouroboros_n.Programs.Opening.{negotiate_as-accept}
use rust_cardano_ouroboros_n.Programs.{
  Config, LogOf, TipLine, begins, answers, reached_tip, log_reached, awaits_payload, panicked,
  and_log, after_answer, after_handshake, step_tip, found_tip, follow_tip, tip,
}
use rust_cardano_ouroboros_n.Programs.Store.{same_bytes}
use rust_cardano_ouroboros_n.Programs.Sync.{
  Exchange, IsExchange, waiting_client, ask_next_waits, Has-FitsWord,
}

module _ (codec : Codec) (laws : IsCodec codec) (blake2b : Bytes → Bytes) where
  -- An answer, and, where it is a block, the answer to the search for its tip in the pieces `found_in`.
  pub record Round : Type 0 where
    pub exchange : Exchange codec laws blake2b
    pub search : Intersect
    pub found_in : List Bytes

  -- The search for one point, answered.
  pub record IsSearch (fuel : ℕ) (points : List Point) (answer : Intersect) (pieces : List Bytes)
      : Type 0 where
    pub ranges : IsMessage (intersect_message answer)
    pub asked : IsWritable codec (to_values (find_intersect points))
    pub writable : IsWritable codec (to_values (intersect_message answer))
    pub full : All (λ piece. piece ≢ []) pieces
    pub bytes : concat pieces ≡ encode codec (to_values (intersect_message answer))
    pub enough : length pieces + 1 < fuel

  abbrev pub IsBehind : ℕ → Reply → Intersect → List Bytes → Type 0
  IsBehind fuel (forward header tip) answer pieces =
      IsSearch fuel (tip_into_point tip ∷ []) answer pieces
  IsBehind fuel (backward point tip) answer pieces = Unit {0}

  abbrev pub IsRound : ℕ → Round → Type 0
  IsRound fuel r =
      IsExchange codec laws blake2b fuel r.exchange
      × IsBehind fuel r.exchange.reply r.search r.found_in

  -- What is logged of an answer: a block is the tip if it has the hash of the tip.
  abbrev pub reached : Bool → List TipLine → List TipLine
  reached true later = reached_tip ∷ later
  reached false later = later

  abbrev pub lines_of : Reply → List TipLine → List TipLine
  lines_of (forward header tip) later =
      answers (forward header tip) ∷ reached (same_bytes header.hash tip.hash) later
  lines_of (backward point tip) later = answers (backward point tip) ∷ later

  abbrev pub lines : List Round → List TipLine
  lines [] = []
  lines (r ∷ rs) = lines_of r.exchange.reply (lines rs)

  -- What arrives behind an answer, and what is sent for it.
  abbrev pub behind : Reply → List Bytes → List Bytes → List Bytes
  behind (forward header tip) found_in later = found_in ++ later
  behind (backward point tip) found_in later = later

  abbrev pub search_for : Reply → List Bytes → List Bytes
  search_for (forward header tip) later =
      encode codec (to_values (find_intersect (tip_into_point tip ∷ []))) ∷ later
  search_for (backward point tip) later = later

  abbrev pub inbox : List Round → List Bytes
  inbox [] = []
  inbox (r ∷ rs) = r.exchange.pieces ++ behind r.exchange.reply r.found_in (inbox rs)

  abbrev pub requests : List Round → List Bytes
  requests [] = encode codec (to_values request_next) ∷ []
  requests (r ∷ rs) =
      encode codec (to_values request_next) ∷ search_for r.exchange.reply (requests rs)

  abbrev waiting_log : List TipLine → List Bytes → LogOf TipLine
  waiting_log ls out = (ls, awaits_payload waiting_client (ready [] out) [])

  log_reached-waiting :
      (b : Bool) (ls : List TipLine) (out : List Bytes)
      → log_reached b (waiting_log ls out) ≡ waiting_log (reached b ls) out
  log_reached-waiting true ls out = refl
  log_reached-waiting false ls out = refl

  -- One reply, from the rest of the run.
  step_tip-behind :
      (reply : Reply) (answer : Intersect) (found_in later : List Bytes) (fuel : ℕ)
      (sent requests : List Bytes) (ls : List TipLine) (more : ChainSync → Channel → LogOf TipLine)
      → IsBehind fuel reply answer found_in
      → ((sent : List Bytes)
          → more client_new (ready later sent) ≡ waiting_log ls (sent ++ requests))
      → step_tip codec blake2b more fuel reply client_new (ready (behind reply found_in later) sent)
        ≡ waiting_log (lines_of reply ls) (sent ++ search_for reply requests)
  unfolding client_new
  step_tip-behind (backward point tip) answer found_in later fuel sent requests ls more h ih =
      ap (and_log (answers (backward point tip))) (ih sent)
  step_tip-behind (forward header tip) answer found_in later fuel sent requests ls more h ih =
      let search = encode codec (to_values (find_intersect (tip_into_point tip ∷ []))) in
      let is_tip = same_bytes header.hash tip.hash in
      ap (λ log. and_log (answers (forward header tip)) (log_reached is_tip log))
        (ap (after_answer λ i s ch. more s ch) (
            ask_intersect_answered codec laws blake2b client_new found_in later sent fuel _ answer
              refl h.ranges h.asked h.writable h.full h.bytes h.enough)
          ∙ ih (sent ++ search ∷ [])
          ∙ ap (waiting_log ls) (append_assoc sent (search ∷ []) requests))
      ∙ ap (and_log (answers (forward header tip)))
          (log_reached-waiting is_tip ls (sent ++ search ∷ requests))

  follow_tip-answers :
      (rs : List Round) (fuel : ℕ) (sent : List Bytes)
      → IsWritable codec (to_values request_next)
      → All (IsRound fuel) rs
      → 1 < fuel
      → follow_tip codec blake2b (suc (length rs)) fuel client_new (ready (inbox rs) sent)
        ≡ waiting_log (lines rs) (sent ++ requests rs)
  unfolding follow_tip client_new
  follow_tip-answers [] fuel sent wr h lt =
      ap (after_answer _) (ask_next_waits codec laws blake2b fuel sent wr lt)
  follow_tip-answers (r ∷ rs) fuel sent wr ((h, b), hs) lt =
      let next = encode codec (to_values request_next) in
      let later = behind r.exchange.reply r.found_in (inbox rs) in
      ap
        (after_answer
          (step_tip codec blake2b (follow_tip codec blake2b (suc (length rs)) fuel) fuel))
        (ask_next_answered codec laws blake2b client_new r.exchange.pieces later sent fuel
          r.exchange.waits r.exchange.message r.exchange.reply refl h.answers h.ranges wr h.writable
          h.full h.bytes h.enough)
      ∙ step_tip-behind r.exchange.reply r.search r.found_in (inbox rs) fuel (sent ++ next ∷ [])
          (requests rs) (lines rs) (follow_tip codec blake2b (suc (length rs)) fuel) b
          (λ sent'. follow_tip-answers rs fuel sent' wr hs lt)
      ∙ ap (waiting_log (lines_of r.exchange.reply (lines rs)))
          (append_assoc sent (next ∷ []) (search_for r.exchange.reply (requests rs)))

  -- The program `tip`, from a connection that is made: the server accepts one of the versions 6 and 7 in
  -- the pieces `welcome`, and answers the search for the program's three points in the pieces `start`. If
  -- it finds none of them, the program panics with nothing logged. If it finds one, and answers one
  -- request after the other, and after each block the search for the tip that came with it, then the
  -- program logs the point that was found, exactly the answers to its requests in their order, and behind
  -- each block whose hash is that of the tip that the tip is reached; it has sent one request more, and a
  -- search behind each block, and waits. No piece is empty, the numbers of each message are in the ranges
  -- of their types, a header can be unwrapped, the encoder accepts all messages, and fuel is two turns
  -- more than the pieces of each answer.
  pub tip-answers :
      (cfg : Config) (v : Version) (welcome start : List Bytes) (answer : Intersect)
      (rs : List Round) (fuel : ℕ)
      → let points = cfg.byron_mainnet ∷ cfg.byron_testnet ∷ cfg.byron_guild ∷ [] in
        let run =
          tip codec blake2b cfg
            (suc (length rs))
            fuel
            (ready welcome [])
            (ready (start ++ inbox rs) []) in
        Has v (versions_of with_peers)
        → IsU32 cfg.magic
        → IsWritable codec (proposal_items (versions_of with_peers) cfg.magic)
        → IsWritable codec (accept_items v cfg.magic)
        → All (λ piece. piece ≢ []) welcome
        → concat welcome ≡ encode codec (accept_items v cfg.magic)
        → length welcome + 1 < fuel
        → IsSearch fuel points answer start
        → IsWritable codec (to_values request_next)
        → All (IsRound fuel) rs
        → ((at : Tip) → answer ≡ not_found at → run ≡ ([], panicked))
          × ((point : Point) (at : Tip)
              → answer ≡ found point at
              → run
                ≡ waiting_log
                    (begins point at ∷ lines rs)
                    (encode codec (to_values (find_intersect points)) ∷ requests rs))
  unfolding tip client_new
  tip-answers cfg v welcome start answer rs fuel hv hm wp wa nw cw lw s wr hr = (
    (λ at e.
        opened
        ∙ ap
            (λ i.
              found_tip codec blake2b (follow_tip codec blake2b (suc (length rs)) fuel) i client_new
                ch)
            e),
    (λ point at e.
        opened
        ∙ ap
            (λ i.
              found_tip codec blake2b (follow_tip codec blake2b (suc (length rs)) fuel) i client_new
                ch)
            e
        ∙ ap (and_log (begins point at))
            (follow_tip-answers rs fuel (encode codec _ ∷ []) wr hr (omega arith))),
  )
    where
      ch : Channel
      ch = ready (inbox rs) (
          encode codec (
            to_values
              (find_intersect (cfg.byron_mainnet ∷ cfg.byron_testnet ∷ cfg.byron_guild ∷ [])))
          ∷ [])

      points : List Point
      points = cfg.byron_mainnet ∷ cfg.byron_testnet ∷ cfg.byron_guild ∷ []

      opened :
          tip codec blake2b cfg
            (suc (length rs))
            fuel
            (ready welcome [])
            (ready (start ++ inbox rs) [])
          ≡ found_tip codec blake2b
              (follow_tip codec blake2b (suc (length rs)) fuel)
              answer
              client_new
              (ready (inbox rs) (encode codec (to_values (find_intersect points)) ∷ []))
      opened =
          ap (after_handshake _) (
            (negotiate_as-accept codec laws with_peers cfg.magic v welcome fuel (Has-FitsWord v hv)
                hm wp wa nw cw lw).0
              hv)
          ∙ ap (after_answer _) (
              ask_intersect_answered codec laws blake2b client_new start (inbox rs) [] fuel points
                answer refl s.ranges s.asked s.writable s.full s.bytes s.enough)
