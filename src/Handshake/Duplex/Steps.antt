-- ===== src/Handshake/Duplex/Steps.antt =====
-- One turn of the handshake of a client and a server, in each phase of their exchange.
use rust_cardano_ouroboros_n.Prelude.{
  ℕ, ◌≡◌, ◌≢◌, inl, inr, refl, sym, ap, subst, ◌∙◌, List, [], ◌++◌, take, drop, Option, none, some,
  arith, ==_refl,
}
use rust_cardano_ouroboros_n.Prelude.Outcome.{ok}
use rust_cardano_ouroboros_n.Model.{Bytes}
use rust_cardano_ouroboros_n.Cbor.{Codec, IsCodec}
use rust_cardano_ouroboros_n.Protocol.{handle, send_bytes}
use rust_cardano_ouroboros_n.Protocol.Stream.{encode-ne-nil}
use rust_cardano_ouroboros_n.Protocol.Receive.{Hears}
use rust_cardano_ouroboros_n.Protocol.Execute.{handle-recv, send_bytes-send}
use rust_cardano_ouroboros_n.Protocol.Duplex.{
  Turn, waits, Pair, Move, left_turn, right_turn, reached, after_left, after_right, arrived, turn,
  turn-ended, turn_send, turn_receive, step,
}
use rust_cardano_ouroboros_n.Protocol.Duplex.Reading.{Reads, turn-Reads}
use rust_cardano_ouroboros_n.Handshake.{
  Handshake, State, propose, confirm, done, propose_versions, accept_version, agency, send, recv,
  protocol, proposals, find_version,
}
use rust_cardano_ouroboros_n.Handshake.Versions.{Version}
use rust_cardano_ouroboros_n.Handshake.Messages.{
  accept_items, to_values-propose_versions, from_iter-propose_versions, to_values-accept_version,
  from_iter-accept_items,
}
use rust_cardano_ouroboros_n.Handshake.Machine.{to_bytes-Writes}
use rust_cardano_ouroboros_n.Handshake.Agreement.{proposal_items}
use rust_cardano_ouroboros_n.Handshake.Duplex.{
  IsReady, on_left, on_right, Awaited, nothing_arrived, client_at, server_at, pair, request, answer,
  Phase, unasked, asked, heard, answered, agreed, Stepped, stays, moves,
}

module _ (codec : Codec) (laws : IsCodec codec) (ours theirs : List Version) (magic : ℕ)
    (v : Version) (r : IsReady codec ours theirs magic v) where
  abbrev c : State → Option Version → Handshake
  c = client_at codec ours theirs magic v

  abbrev s : State → Option Version → Handshake
  s = server_at codec ours theirs magic v

  client_sends :
      send_bytes (protocol codec) (c propose none)
      ≡ ok (request codec ours theirs magic v, c confirm none)
  unfolding agency send
  client_sends =
      send_bytes-send (protocol codec) _ _ (propose_versions (proposals ours magic)) _ refl refl
        (to_bytes-Writes codec _ _ (to_values-propose_versions codec laws _ r.ordered, r.asks))

  server_sends :
      send_bytes (protocol codec) (s confirm none)
      ≡ ok (answer codec ours theirs magic v, s done (some v))
  unfolding agency send
  server_sends =
      send_bytes-send (protocol codec) _ _ (accept_version v magic) _ refl (rw r.newest) (
        to_bytes-Writes codec (accept_version v magic) _
          (to_values-accept_version codec v magic r.fits, r.accepts))

  server_handles :
      handle (protocol codec) (s propose none) (proposal_items ours magic) ≡ ok (s confirm none)
  unfolding recv
  server_handles =
      handle-recv (protocol codec) _ _ _ (propose_versions (proposals ours magic))
        (from_iter-propose_versions _ r.ordered) refl

  client_handles :
      handle (protocol codec) (c confirm none) (accept_items v magic)
      ≡ ok (c done (find_version v ours))
  unfolding recv
  client_handles =
      handle-recv (protocol codec) _ _ _ (accept_version v magic)
        (from_iter-accept_items v magic r.fits r.small) (rw (==_refl magic))

  client-Hears : Hears (protocol codec) (c confirm none)
  unfolding agency
  client-Hears = (refl, refl)

  server-Hears : Hears (protocol codec) (s propose none)
  unfolding agency
  server-Hears = (refl, refl)

  abbrev At : {x : Pair Handshake Handshake} → Phase codec ours theirs magic v x → Move → Type 0
  At = Stepped codec ours theirs magic v

  quiet_left :
      (n : ℕ) (x : Pair Handshake Handshake) {t : Turn Handshake}
      → turn (protocol codec) codec x.left x.left_held (arrived (take n x.to_left)) ≡ t
      → step (protocol codec) (protocol codec) codec (left_turn n) x ≡ after_left n x t
  unfolding step
  quiet_left n x e = ap (after_left n x) e

  quiet_right :
      (n : ℕ) (x : Pair Handshake Handshake) {t : Turn Handshake}
      → turn (protocol codec) codec x.right x.right_held (arrived (take n x.to_right)) ≡ t
      → step (protocol codec) (protocol codec) codec (right_turn n) x ≡ after_right n x t
  unfolding step
  quiet_right n x e = ap (after_right n x) e

  waiting_client :
      (n : ℕ) → turn (protocol codec) codec (c confirm none) [] (arrived (take n [])) ≡ waits
  waiting_client n =
      ap (turn (protocol codec) codec (c confirm none) []) (nothing_arrived n)
      ∙ turn_receive (protocol codec) codec (c confirm none) [] none client-Hears

  step-unasked : (m : Move) → At unasked m
  unfolding agency
  step-unasked (left_turn n) =
      moves (pair (c confirm none) [] [] (s propose none) [] (request codec ours theirs magic v))
        (quiet_left n _ (turn_send (protocol codec) codec _ _ [] _ _ refl refl client_sends))
        (asked [] (request codec ours theirs magic v) refl (encode-ne-nil codec laws _ r.asks))
        (omega arith)
  step-unasked (right_turn n) =
      stays
        (quiet_right n _ (
          ap (turn (protocol codec) codec (s propose none) []) (nothing_arrived n)
          ∙ turn_receive (protocol codec) codec (s propose none) [] none server-Hears))
        (λ a. a)

  step-heard : (m : Move) → At heard m
  unfolding agency
  step-heard (left_turn n) = stays (quiet_left n _ (waiting_client n)) (λ a. a)
  step-heard (right_turn n) =
      moves (pair (c confirm none) [] (answer codec ours theirs magic v) (s done (some v)) [] [])
        (quiet_right n _ (turn_send (protocol codec) codec _ _ [] _ _ refl refl server_sends))
        (answered [] (answer codec ours theirs magic v) refl (encode-ne-nil codec laws _ r.accepts))
        (omega arith)

  step-agreed : (m : Move) → At agreed m
  unfolding agency
  step-agreed (left_turn n) =
      stays (quiet_left n _ (turn-ended (protocol codec) codec _ [] _ refl)) (λ a. a)
  step-agreed (right_turn n) =
      stays (quiet_right n _ (turn-ended (protocol codec) codec _ [] _ refl)) (λ a. a)

  step-asked :
      (held coming : Bytes) (e : held ++ coming ≡ request codec ours theirs magic v)
      (n : coming ≢ []) (m : Move)
      → At (asked held coming e n) m
  step-asked held coming e n (left_turn k) = stays (quiet_left k _ (waiting_client k)) (λ a. a)
  step-asked held coming e n (right_turn k) = read (
      turn-Reads (protocol codec) codec laws (s propose none) (s confirm none) _ server-Hears r.asks
        server_handles held coming k e n)
    where
      unheard : k ≡ 0 → ¬ Awaited on_right (right_turn k)
      unheard z = subst (λ i. ¬ Awaited on_right (right_turn i)) (sym z) (λ a. a)

      read :
          Reads
            (protocol codec)
            codec
            laws
            (s propose none)
            (s confirm none)
            (proposal_items ours magic)
            server-Hears
            r.asks
            server_handles
            held
            coming
            k
          → At (asked held coming e n) (right_turn k)
      read (inl (q, z)) = stays (quiet_right k _ q) (unheard z)
      read (inr (inl (q, z))) =
          moves (pair (c confirm none) [] [] (s confirm none) [] [])
            (quiet_right k _ q
              ∙ ap (λ l. reached (pair (c confirm none) [] [] (s confirm none) [] l)) z)
            heard (omega arith)
      read (inr (inr (q, k', j, lt))) =
          moves
            (pair (c confirm none) [] [] (s propose none) (held ++ take k coming) (drop k coming))
            (quiet_right k _ q) (asked _ _ j k') (omega (arith, lt))

  step-answered :
      (held coming : Bytes) (e : held ++ coming ≡ answer codec ours theirs magic v)
      (n : coming ≢ []) (m : Move)
      → At (answered held coming e n) m
  unfolding agency
  step-answered held coming e n (right_turn k) =
      stays (quiet_right k _ (turn-ended (protocol codec) codec _ [] _ refl)) (λ a. a)
  step-answered held coming e n (left_turn k) = read (
      turn-Reads (protocol codec) codec laws (c confirm none) (c done (find_version v ours)) _
        client-Hears r.accepts client_handles held coming k e n)
    where
      unheard : k ≡ 0 → ¬ Awaited on_left (left_turn k)
      unheard z = subst (λ i. ¬ Awaited on_left (left_turn i)) (sym z) (λ a. a)

      read :
          Reads
            (protocol codec)
            codec
            laws
            (c confirm none)
            (c done (find_version v ours))
            (accept_items v magic)
            client-Hears
            r.accepts
            client_handles
            held
            coming
            k
          → At (answered held coming e n) (left_turn k)
      read (inl (q, z)) = stays (quiet_left k _ q) (unheard z)
      read (inr (inl (q, z))) =
          moves (pair (c done (find_version v ours)) [] [] (s done (some v)) [] [])
            (quiet_left k _ q
              ∙ ap (λ l. reached (pair (c done (find_version v ours)) [] l (s done (some v)) [] []))
                  z)
            agreed (omega arith)
      read (inr (inr (q, k', j, lt))) =
          moves
            (pair (c confirm none) (held ++ take k coming) (drop k coming) (s done (some v)) [] [])
            (quiet_left k _ q) (answered _ _ j k') (omega (arith, lt))

  -- Every turn in every phase.
  pub step-Phase :
      {x : Pair Handshake Handshake} (h : Phase codec ours theirs magic v x) (m : Move) → At h m
  step-Phase unasked m = step-unasked m
  step-Phase (asked held coming e n) m = step-asked held coming e n m
  step-Phase heard m = step-heard m
  step-Phase (answered held coming e n) m = step-answered held coming e n m
  step-Phase agreed m = step-agreed m
