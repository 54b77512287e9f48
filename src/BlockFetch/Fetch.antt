-- ===== src/BlockFetch/Fetch.antt =====
-- One run of `execute` while a batch comes in: it stops at the first frame that completes a block.

use rust_cardano_ouroboros_n.Prelude.{
  ℕ, zero, suc, ◌≤◌, ◌<◌, ◌≡◌, ◌≢◌, ◌⊎◌, inl, inr, refl, sym, ap, ◌∙◌, subst, List, [], ◌∷◌, ◌++◌,
  append_assoc, append-nil, All, length, concat, Bool, true, false, arith,
}
use rust_cardano_ouroboros_n.Prelude.Outcome.{ok}
use rust_cardano_ouroboros_n.Model.{Bytes}
use rust_cardano_ouroboros_n.Cbor.{Codec, IsCodec, Items}
use rust_cardano_ouroboros_n.Protocol.{Channel, Execution, finished, execute}
use rust_cardano_ouroboros_n.Protocol.Receive.{Hears, handle_all}
use rust_cardano_ouroboros_n.Protocol.Stream.{encode_all, IsWritable, IsPart, Cut, cut}
use rust_cardano_ouroboros_n.Protocol.Execute.{execute_done, execute_frame, nothing_left}
use rust_cardano_ouroboros_n.BlockFetch.{
  State, idle, busy, streaming, start_batch, to_values, Config, BlockFetch, agency, protocol,
}
use rust_cardano_ouroboros_n.BlockFetch.Machine.{
  stream_values, block_values, split_stream, at, handle_all-block_values, handle_all-stream_values,
  handle-start_batch,
}

module _ (codec : Codec) where
  -- What is still to come of a batch: a part of a message that is kept, and the pieces behind it.
  pub record Incoming (held : Bytes) (pieces : List Bytes) (values : List Items) : Type 0 where
    pub part : IsPart codec held
    pub full : All (λ piece. piece ≢ []) pieces
    pub writable : All (IsWritable codec) values
    pub bytes : held ++ concat pieces ≡ encode_all codec values

-- Pieces that are not empty and hold nothing are no pieces.
no_pieces :
    (held : Bytes) (pieces : List Bytes)
    → All (λ piece. piece ≢ []) pieces
    → held ++ concat pieces ≡ []
    → (held ≡ []) × (pieces ≡ [])
no_pieces [] [] n e = (refl, refl)
no_pieces [] ([] ∷ pieces) (n, ns) e = absurd (n refl)
no_pieces [] ((b ∷ p) ∷ pieces) n e = cc
no_pieces (b ∷ held) pieces n e = cc

cons-parts : (v w : Items) (vs ws : List Items) → v ∷ vs ≡ w ∷ ws → (v ≡ w) × (vs ≡ ws)
cons-parts v w vs ws e = (cc, cc)

module _ (codec : Codec) (laws : IsCodec codec) (config : Config) (closing : Bool) where
  abbrev client_at : State → List Bytes → Bool → BlockFetch
  client_at = at codec config closing

  abbrev channel : Bytes → List Bytes → List Bytes → Channel
  channel held inbox sent = record { bytes = held; inbox = inbox; outbox = sent }

  -- How a run ends: with some blocks, or with the whole rest of the batch.
  pub data Fetched (bs : List Bytes) (count : ℕ) (later sent : List Bytes)
      (x : Execution BlockFetch) : Type 0 where
    some_blocks :
        (b : Bytes) (front back : List Bytes) (held : Bytes) (pieces : List Bytes)
        → bs ≡ b ∷ (front ++ back)
        → Incoming codec held pieces (stream_values back)
        → length pieces ≤ count
        → x ≡ finished (client_at streaming (b ∷ front) false) (channel held (pieces ++ later) sent)
        → Fetched bs count later sent x
    whole_batch :
        x ≡ finished (client_at idle bs false) (channel [] later sent)
        → Fetched bs count later sent x

  streaming-Hears : Hears (protocol codec) (client_at streaming [] true)
  unfolding agency
  streaming-Hears = (refl, refl)

  Fetched-eq :
      (bs cs : List Bytes) (m n : ℕ) (later sent : List Bytes) (x y : Execution BlockFetch)
      → bs ≡ cs
      → m ≤ n
      → x ≡ y
      → Fetched cs m later sent y
      → Fetched bs n later sent x
  Fetched-eq bs cs m n later sent x y p le q (some_blocks b front back held pieces e i l r) =
      some_blocks b front back held pieces (p ∙ e) i (omega arith) (q ∙ r)
  Fetched-eq bs cs m n later sent x y p le q (whole_batch r) =
      whole_batch
        (q ∙ r ∙ ap (λ l. finished (client_at idle l false) (channel [] later sent)) (sym p))

  -- After one frame, from whichever execution it came: no block is complete, some are, or the batch is
  -- over.
  after_frame :
      (pieces : List Bytes) (bs : List Bytes) (ws rest : List Items) (part : Bytes) (fuel : ℕ)
      (later sent : List Bytes) (x : Execution BlockFetch)
      → stream_values bs ≡ ws ++ rest
      → Incoming codec part pieces rest
      → ((t : BlockFetch)
          → handle_all (protocol codec) (client_at streaming [] true) ws ≡ ok t
          → x ≡ execute (protocol codec) codec (suc fuel) t (channel part (pieces ++ later) sent))
      → ((back : List Bytes)
          → Incoming codec part pieces (stream_values back)
          → Fetched back (length pieces) later sent (
              execute
                (protocol codec)
                codec
                (suc fuel)
                (client_at streaming [] true)
                (channel part (pieces ++ later) sent)))
      → Fetched bs (suc (length pieces)) later sent x
  unfolding agency
  after_frame pieces bs ws rest part fuel later sent x split i frame ih =
      go (split_stream bs ws rest split)
    where
      incoming :
          (back : List Bytes)
          → rest ≡ stream_values back
          → Incoming codec part pieces (stream_values back)
      incoming back r = subst (Incoming codec part pieces) r i

      go :
          ((front back : List Bytes) × (bs ≡ front ++ back)
              × (ws ≡ block_values front)
              × (rest ≡ stream_values back))
            ⊎ ((ws ≡ stream_values bs) × (rest ≡ []))
          → Fetched bs (suc (length pieces)) later sent x
      go (inl ([], back, p, q, r)) =
          Fetched-eq bs back (length pieces) (suc (length pieces)) later sent _ _ p (omega arith)
            (frame (client_at streaming [] true) (ap (handle_all (protocol codec) _) q))
            (ih back (incoming back r))
      go (inl (b ∷ front, back, p, q, r)) =
          some_blocks b front back part pieces p (incoming back r) (omega arith) (
            frame (client_at streaming (b ∷ front) false) (
              ap (handle_all (protocol codec) _) q
              ∙ handle_all-block_values codec config closing b front [] true)
            ∙ execute_done (protocol codec) codec fuel _ _ refl)
      go (inr (q, r)) =
          let (e₁, e₂) = no_pieces part pieces i.full (i.bytes ∙ ap (encode_all codec) r) in
          whole_batch (
            frame (client_at idle bs false) (
              ap (handle_all (protocol codec) _) q
              ∙ handle_all-stream_values codec config closing bs [] true)
            ∙ execute_done (protocol codec) codec fuel _ _ refl
            ∙ rw (e₁, e₂))

  -- What comes behind the whole messages of a frame.
  rest_of :
      (values : List Items) (b : Bytes) (pieces : List Bytes)
      → All (λ piece. piece ≢ []) pieces
      → (c : Cut codec values b (concat pieces)) → Incoming codec c.part pieces c.later
  rest_of values b pieces ns c = record {
    part = c.proper;
    full = ns;
    writable = c.later_writable;
    bytes = c.back;
  }

  Incoming-Cut :
      (values : List Items) (held piece : Bytes) (pieces : List Bytes)
      → Incoming codec held (piece ∷ pieces) values
      → Cut codec values (held ++ piece) (concat pieces)
  Incoming-Cut values held piece pieces i =
      cut codec values (held ++ piece) (concat pieces) i.writable
        (append_assoc held piece (concat pieces) ∙ i.bytes)

  -- Something comes in while something is to come.
  not_over : (held : Bytes) (v : Items) (vs : List Items) → ¬ Incoming codec held [] (v ∷ vs)
  not_over held v vs i =
      cc
        (nothing_left (protocol codec) codec laws held (v ∷ vs) i.part i.writable
          (sym (append-nil held) ∙ i.bytes)).1

  -- While a batch comes in, in any pieces that are not empty, a running client without blocks reads on
  -- until it has some, or the batch is over.
  pub fetch :
      (pieces : List Bytes) (held : Bytes) (bs : List Bytes) (fuel : ℕ) (later sent : List Bytes)
      → Incoming codec held pieces (stream_values bs)
      → length pieces < fuel
      → Fetched bs (length pieces) later sent (
          execute
            (protocol codec)
            codec
            fuel
            (client_at streaming [] true)
            (channel held (pieces ++ later) sent))
  fetch [] held [] fuel later sent i lt = absurd (not_over held _ _ i)
  fetch [] held (b ∷ bs) fuel later sent i lt = absurd (not_over held _ _ i)
  fetch (piece ∷ pieces) held bs zero later sent i lt = absurd (omega arith)
  fetch (piece ∷ pieces) held bs (suc zero) later sent i lt = absurd (omega arith)
  fetch (piece ∷ pieces) held bs (suc (suc fuel)) later sent i lt =
      let c = Incoming-Cut (stream_values bs) held piece pieces i in
      after_frame pieces bs c.whole c.later c.part fuel later sent _ c.split
        (rest_of _ _ pieces i.full.1 c)
        (λ t e.
          execute_frame (protocol codec) codec laws (suc fuel) (client_at streaming [] true) t
            (stream_values bs) held piece (concat pieces) (pieces ++ later) sent c streaming-Hears
            e)
        λ back j. fetch pieces c.part back (suc fuel) later sent j (omega arith)

  -- The same from the request on: the batch is announced first.
  pub fetch_announced :
      (pieces : List Bytes) (held : Bytes) (bs : List Bytes) (fuel : ℕ) (later sent : List Bytes)
      → Incoming codec held pieces (to_values start_batch ∷ stream_values bs)
      → length pieces < fuel
      → Fetched bs (length pieces) later sent (
          execute
            (protocol codec)
            codec
            fuel
            (client_at busy [] true)
            (channel held (pieces ++ later) sent))
  unfolding agency
  fetch_announced [] held bs fuel later sent i lt = absurd (not_over held _ _ i)
  fetch_announced (piece ∷ pieces) held bs zero later sent i lt = absurd (omega arith)
  fetch_announced (piece ∷ pieces) held bs (suc zero) later sent i lt = absurd (omega arith)
  fetch_announced (piece ∷ pieces) held bs (suc (suc fuel)) later sent i lt =
      let c = Incoming-Cut (to_values start_batch ∷ stream_values bs) held piece pieces i in
      go c c.whole refl λ j. fetch_announced pieces c.part bs (suc fuel) later sent j (omega arith)
    where
      go :
          (c : Cut codec (to_values start_batch ∷ stream_values bs) (held ++ piece) (concat pieces))
          (ws : List Items)
          → c.whole ≡ ws
          → (Incoming codec c.part pieces (to_values start_batch ∷ stream_values bs)
              → Fetched bs (length pieces) later sent (
                  execute
                    (protocol codec)
                    codec
                    (suc fuel)
                    (client_at busy [] true)
                    (channel c.part (pieces ++ later) sent)))
          → Fetched bs (suc (length pieces)) later sent (
              execute
                (protocol codec)
                codec
                (suc (suc fuel))
                (client_at busy [] true)
                (channel held (piece ∷ (pieces ++ later)) sent))
      go c [] e ih =
          Fetched-eq bs bs (length pieces) (suc (length pieces)) later sent _ _ refl (omega arith)
            (execute_frame (protocol codec) codec laws (suc fuel) (client_at busy [] true)
              (client_at busy [] true) (to_values start_batch ∷ stream_values bs) held piece
              (concat pieces) (pieces ++ later) sent c (refl, refl)
              (ap (handle_all (protocol codec) _) e))
            (ih (
              subst (Incoming codec c.part pieces) (sym (c.split ∙ ap (λ l. l ++ c.later) e))
                (rest_of _ _ pieces i.full.1 c)))
      go c (w ∷ ws) e ih =
          let (e₁, e₂) = cons-parts _ _ _ _ (c.split ∙ ap (λ l. l ++ c.later) e) in
          after_frame pieces bs ws c.later c.part fuel later sent _ e₂
            (rest_of _ _ pieces i.full.1 c)
            (λ t q.
              execute_frame (protocol codec) codec laws (suc fuel) (client_at busy [] true) t
                (to_values start_batch ∷ stream_values bs) held piece (concat pieces)
                (pieces ++ later) sent c (refl, refl)
                (ap (handle_all (protocol codec) _) (e ∙ ap (λ v. v ∷ ws) (sym e₁))
                  ∙ rw (handle-start_batch codec config closing [] true) q))
            λ back j. fetch pieces c.part back (suc fuel) later sent j (omega arith)
