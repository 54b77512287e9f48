-- ===== src/Mux/Fifo.antt =====
-- A channel whose receiver takes payloads while others arrive: it is a queue, first in, first out.
use rust_cardano_ouroboros_n.Prelude.{
  ℕ, zero, suc, ◌≡◌, ◌≢◌, ◌∙◌, sym, ap, subst, refl, inl, inr, List, [], ◌∷◌, ◌++◌, All, arith,
  Option, none, some, ◌==◌, ==_iff, ==_refl, if◌then◌else◌, true, false, Bool-cases, append_assoc,
  append-nil,
}
use rust_cardano_ouroboros_n.Prelude.Words.{flip_top}
use rust_cardano_ouroboros_n.Model.{Bytes}
use rust_cardano_ouroboros_n.Mux.{
  send_all, Sent, Channels, Reader, in_header, in_payload, Demux, idle, start_payload, parse_header,
  read_u16, dispatch, feed, deliver, enqueue, Received, received, waiting, panicked, recv,
  take_oldest,
}
use rust_cardano_ouroboros_n.Mux.Frames.{feed-append}
use rust_cardano_ouroboros_n.Mux.Delivery.{
  IsWhole, payloads_for, push_all, deliver-eq, feed_pieces-send_all,
}
use rust_cardano_ouroboros_n.Mux.Connection.Invariant.{
  is_attached, dispatch-is_attached, recv-received, recv-is_attached,
}

-- Bytes arrive, or the receiver of the channel asks for a payload.
pub data Turn : Type 0 where
  arrives : Bytes → Turn
  asks : Turn

abbrev pub after_asking : (Demux → List Bytes × Demux) → Demux → Received → List Bytes × Demux
after_asking more d waiting = more d
after_asking more d panicked = ([], d)
after_asking more d (received payload channels) =
    let (payloads, e) = more (record { reader = d.reader; channels = channels }) in
    (payload ∷ payloads, e)

-- What the receiver of channel `i` gets in some turns, and what is left then.
unfoldable pub run_turns : ℕ → List Turn → Demux → List Bytes × Demux
run_turns i [] d = ([], d)
run_turns i (arrives piece ∷ turns) d = run_turns i turns (feed d piece)
run_turns i (asks ∷ turns) d = after_asking (run_turns i turns) d (recv i d.channels)

abbrev pub arrived : List Turn → Bytes
arrived [] = []
arrived (arrives piece ∷ turns) = piece ++ arrived turns
arrived (asks ∷ turns) = arrived turns

abbrev before : List Bytes → Option (List Bytes) → Option (List Bytes)
before front none = none
before front (some queue) = some (front ++ queue)

-- The demultiplexer `e` is `d` with the payloads `front` still in front of the queue of channel `i`.
record Ahead (i : ℕ) (front : List Bytes) (d e : Demux) : Type 0 where
  reader : e.reader ≡ d.reader
  queues : (j : ℕ) → e.channels j ≡ (if i == j then before front (d.channels j) else d.channels j)

before-enqueue :
    (front : List Bytes) (payload : Bytes) (q : Option (List Bytes))
    → enqueue payload (before front q) ≡ before front (enqueue payload q)
before-enqueue front payload none = refl
before-enqueue front payload (some queue) = ap some (append_assoc front queue (payload ∷ []))

abbrev IsAhead : ℕ → List Bytes → Channels → Channels → Type 0
IsAhead i front channels fuller =
    (j : ℕ) → fuller j ≡ (if i == j then before front (channels j) else channels j)

deliver-IsAhead :
    (i : ℕ) (front : List Bytes) (idx : ℕ) (payload : Bytes) (channels fuller : Channels)
    → IsAhead i front channels fuller
    → IsAhead i front (deliver idx payload channels) (deliver idx payload fuller)
deliver-IsAhead i front idx payload channels fuller h j =
    rw (deliver-eq idx payload channels j, deliver-eq idx payload fuller j, h j)
      (elim (Bool-cases (idx == j)) [
        | inr e ↦ rw e refl
        | inl e ↦ rw e (elim (Bool-cases (i == j)) [
          | inr n ↦ rw n refl
          | inl m ↦ rw m (before-enqueue front payload (channels j))
        ])
      ])

start_payload-Ahead :
    (i : ℕ) (front : List Bytes) (idx n : ℕ) (channels fuller : Channels)
    → IsAhead i front channels fuller
    → Ahead i front (start_payload idx n channels) (start_payload idx n fuller)
unfolding start_payload
start_payload-Ahead i front idx zero channels fuller h = record {
  reader = refl;
  queues = deliver-IsAhead i front idx [] channels fuller h;
}
start_payload-Ahead i front idx (suc n) channels fuller h = record { reader = refl; queues = h }

parse_header-Ahead :
    (i : ℕ) (front : List Bytes) (header : Bytes) (channels fuller : Channels)
    → IsAhead i front channels fuller
    → Ahead i front (parse_header header channels) (parse_header header fuller)
unfolding parse_header
parse_header-Ahead i front [] channels fuller h = record { reader = refl; queues = h }
parse_header-Ahead i front (a ∷ []) channels fuller h = record { reader = refl; queues = h }
parse_header-Ahead i front (a ∷ b ∷ []) channels fuller h = record { reader = refl; queues = h }
parse_header-Ahead i front (a ∷ b ∷ c ∷ []) channels fuller h = record { reader = refl; queues = h }
parse_header-Ahead i front (a ∷ b ∷ c ∷ d ∷ []) channels fuller h = record {
  reader = refl;
  queues = h;
}
parse_header-Ahead i front (a ∷ b ∷ c ∷ d ∷ e ∷ []) channels fuller h = record {
  reader = refl;
  queues = h;
}
parse_header-Ahead i front (a ∷ b ∷ c ∷ d ∷ e ∷ f ∷ []) channels fuller h = record {
  reader = refl;
  queues = h;
}
parse_header-Ahead i front (a ∷ b ∷ c ∷ d ∷ e ∷ f ∷ g ∷ []) channels fuller h = record {
  reader = refl;
  queues = h;
}
parse_header-Ahead i front (a ∷ b ∷ c ∷ d ∷ e ∷ f ∷ g ∷ k ∷ []) channels fuller h =
    start_payload-Ahead i front (flip_top (read_u16 e f)) (read_u16 g k) channels fuller h
parse_header-Ahead i front (a ∷ b ∷ c ∷ d ∷ e ∷ f ∷ g ∷ k ∷ l ∷ rest) channels fuller h = record {
  reader = refl;
  queues = h;
}

dispatch-Ahead :
    (i : ℕ) (front : List Bytes) (reader : Reader) (channels fuller : Channels) (byte : ℕ)
    → IsAhead i front channels fuller
    → Ahead i front (dispatch reader channels byte) (dispatch reader fuller byte)
unfolding dispatch
dispatch-Ahead i front (in_header header) channels fuller byte h =
    parse_header-Ahead i front (header ++ byte ∷ []) channels fuller h
dispatch-Ahead i front (in_payload idx zero payload) channels fuller byte h = record {
  reader = refl;
  queues = deliver-IsAhead i front idx (payload ++ byte ∷ []) channels fuller h;
}
dispatch-Ahead i front (in_payload idx (suc missing) payload) channels fuller byte h = record {
  reader = refl;
  queues = h;
}

feed-Ahead :
    (i : ℕ) (front : List Bytes) (bytes : Bytes) (d e : Demux)
    → Ahead i front d e
    → Ahead i front (feed d bytes) (feed e bytes)
unfolding feed
feed-Ahead i front [] d e h = h
feed-Ahead i front (b ∷ bytes) d e h =
    feed-Ahead i front bytes (dispatch d.reader d.channels b) (dispatch e.reader e.channels b)
      (rw h.reader (dispatch-Ahead i front d.reader d.channels e.channels b h.queues))

Ahead-refl : (i : ℕ) (d : Demux) → Ahead i [] d d
Ahead-refl i d = record { reader = refl; queues = λ j. ground (arith, nothing (d.channels j)) }
  where
    nothing : (q : Option (List Bytes)) → before [] q ≡ q
    nothing none = refl
    nothing (some q) = refl

Ahead-trans :
    (i : ℕ) (xs ys : List Bytes) (c d e : Demux)
    → Ahead i ys c d
    → Ahead i xs d e
    → Ahead i (xs ++ ys) c e
Ahead-trans i xs ys c d e h k = record {
  reader = k.reader ∙ h.reader;
  queues = λ j.
      k.queues j
      ∙ rw (h.queues j)
          (elim (Bool-cases (i == j)) [ inr n ↦ rw n refl | inl m ↦ rw m (both (c.channels j)) ]);
}
  where
    both : (q : Option (List Bytes)) → before xs (before ys q) ≡ before (xs ++ ys) q
    both none = refl
    both (some q) = ap some (sym (append_assoc xs ys q))

Ahead-received :
    (i : ℕ) (d : Demux) (payload : Bytes) (channels : Channels)
    → recv i d.channels ≡ received payload channels
    → Ahead i (payload ∷ []) (record { reader = d.reader; channels = channels }) d
Ahead-received i d payload channels e =
    let (queue, p, q) = recv-received i d.channels payload channels e in
    record {
      reader = refl;
      queues = λ j.
          rw q (elim (Bool-cases (i == j)) [
            | inr n ↦ rw n refl
            | inl m ↦ rw (m, ← (==_iff i j).0 m) p
          ]);
    }

feed-is_attached :
    (i : ℕ) (bytes : Bytes) (d : Demux)
    → is_attached ((feed d bytes).channels i) ≡ is_attached (d.channels i)
unfolding feed
feed-is_attached i [] d = refl
feed-is_attached i (b ∷ bytes) d =
    feed-is_attached i bytes (dispatch d.reader d.channels b)
    ∙ dispatch-is_attached d.reader d.channels b i

-- With a sender, `recv` does not panic.
recv-attached :
    (i : ℕ) (channels : Channels) → is_attached (channels i) ≡ true → recv i channels ≢ panicked
unfolding recv
recv-attached i channels a = go (channels i) a
  where
    go : (q : Option (List Bytes)) → is_attached q ≡ true → take_oldest i channels q ≢ panicked
    go none h = cc
    go (some []) h = λ e. cc
    go (some (payload ∷ queue)) h = λ e. cc

-- Taking and feeding commute: what was taken is what stood in front.
run_turns-Ahead :
    (i : ℕ) (turns : List Turn) (d : Demux)
    → is_attached (d.channels i) ≡ true
    → let (taken, e) = run_turns i turns d in Ahead i taken e (feed d (arrived turns))
unfolding run_turns
run_turns-Ahead i [] d a = unfold feed in Ahead-refl i d
run_turns-Ahead i (arrives piece ∷ turns) d a =
    subst (Ahead i _ _) (sym (feed-append d piece (arrived turns)))
      (run_turns-Ahead i turns (feed d piece) (feed-is_attached i piece d ∙ a))
run_turns-Ahead i (asks ∷ turns) d a = go (recv i d.channels) refl (run_turns-Ahead i turns)
  where
    go :
        (r : Received)
        → recv i d.channels ≡ r
        → ((e : Demux)
            → is_attached (e.channels i) ≡ true
            → let (taken, f) = run_turns i turns e in Ahead i taken f (feed e (arrived turns)))
        → let (taken, e) = after_asking (run_turns i turns) d r in
          Ahead i taken e (feed d (arrived turns))
    go waiting p ih = ih d a
    go panicked p ih = absurd (recv-attached i d.channels a p)
    go (received payload channels) p ih =
        let e : Demux = record { reader = d.reader; channels = channels } in
        Ahead-trans i (payload ∷ []) (run_turns i turns e).0 (run_turns i turns e).1
          (feed e (arrived turns)) (feed d (arrived turns))
          (ih e (recv-is_attached i d.channels payload channels i p ∙ a))
          (feed-Ahead i (payload ∷ []) (arrived turns) e d (Ahead-received i d payload channels p))

-- While payloads arrive, whose bytes are cut anywhere, the receiver of a channel asks for them at any
-- times. Then those that it got, with those that are left in the queue behind them, are those that were
-- in the queue and then those that were sent to the channel, in order; and the other channels have got
-- what was sent to them. The payloads and their indices fit 16 bits, and the socket takes each payload
-- in one call.
pub run_turns-send_all :
    (i : ℕ) (write : Bytes → ℕ) (sends : List Sent) (turns : List Turn) (channels : Channels)
    (queue : List Bytes)
    → All (IsWhole write) sends
    → arrived turns ≡ send_all write sends
    → channels i ≡ some queue
    → let (taken, demux) = run_turns i turns (idle channels) in
      (rest : List Bytes) × (demux.channels i ≡ some rest)
      × (taken ++ rest ≡ queue ++ payloads_for i sends)
      × ((j : ℕ) → j ≢ i → demux.channels j ≡ push_all (payloads_for j sends) (channels j))
      × (demux.reader ≡ in_header [])
run_turns-send_all i write sends turns channels queue h e q =
    let (taken, demux) = run_turns i turns (idle channels) in
    let ahead = run_turns-Ahead i turns (idle channels) (ap is_attached q) in
    let (r, s) =
      feed_pieces-send_all write sends channels (arrived turns ∷ []) h
        (append-nil (arrived turns) ∙ e) in
    let own : before taken (demux.channels i) ≡ some (queue ++ payloads_for i sends) =
      sym (ahead.queues i ∙ rw (==_refl i) refl) ∙ s i ∙ ap (push_all (payloads_for i sends)) q in
    let (rest, p, t) = split taken (demux.channels i) _ own in
    (rest, p, t, (λ j n. sym (ahead.queues j ∙ rw (apart j n) refl) ∙ s j), sym ahead.reader ∙ r)
  where
    split :
        (taken : List Bytes) (q : Option (List Bytes)) (all : List Bytes)
        → before taken q ≡ some all
        → (rest : List Bytes) × (q ≡ some rest) × (taken ++ rest ≡ all)
    split taken none all e = cc
    split taken (some rest) all e = (rest, refl, cc)

    apart : (j : ℕ) → j ≢ i → (i == j) ≡ false
    apart j n = ground (arith, ==_iff i j, λ (e : i ≡ j). n (sym e))
