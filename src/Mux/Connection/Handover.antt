-- ===== src/Mux/Connection/Handover.antt =====
-- One channel after the other on one connection: what the task of the first leaves for the next one.
use rust_cardano_ouroboros_n.Prelude.{
  ℕ, zero, suc, ◌+◌, ◌≤◌, ◌<◌, ◌≡◌, ◌≢◌, ◌∙◌, sym, ap, ap₂, refl, inl, inr, List, [], ◌∷◌, ◌++◌,
  length, take, drop, All, arith, none, some, ◌==◌, ==_iff, ==_refl, Bool-cases, append_assoc,
  take_all, take-append-drop, length-take, append-nil,
}
use rust_cardano_ouroboros_n.Prelude.Int.{IsU16}
use rust_cardano_ouroboros_n.Prelude.Words.{flip_top}
use rust_cardano_ouroboros_n.Model.{Bytes}
use rust_cardano_ouroboros_n.Mux.{
  send, send_all, Sent, Channels, in_header, in_payload, Demux, idle, start_payload, read_u16,
  dispatch, feed, register, unregister,
}
use rust_cardano_ouroboros_n.Mux.Delivery.{IsWhole, payloads_for, push_all, feed_pieces-send_all}
use rust_cardano_ouroboros_n.Mux.Connection.{
  Connection, Task, running, open_channel, drop_channel, read_byte, read_bytes, run_demux,
}

abbrev pub connection : Bytes → List ℕ → Task → Channels → Connection
connection socket live task channels = record {
  socket = socket;
  live = live;
  task = task;
  channels = channels;
}

-- What the connection is when the task has come from `idle` or elsewhere to the state of `demux`.
abbrev pub at : Bytes → List ℕ → Demux → Connection
at socket live demux = connection socket live (running demux.reader) demux.channels

-- The task reads as `feed` does.
pub read_bytes-feed :
    (bytes rest : Bytes) (live : List ℕ) (demux : Demux)
    → read_bytes (length bytes) (at (bytes ++ rest) live demux) ≡ at rest live (feed demux bytes)
unfolding read_byte feed
read_bytes-feed [] rest live demux = refl
read_bytes-feed (b ∷ bytes) rest live demux =
    read_bytes-feed bytes rest live (dispatch demux.reader demux.channels b)

-- The next channel has the task begin with a header.
abbrev pub next_channel : ℕ → ℕ → Connection → Connection
next_channel i j c = open_channel j (drop_channel i c)

next_channel-at :
    (i j : ℕ) (socket : Bytes) (demux : Demux)
    → next_channel i j (at socket (i ∷ []) demux)
      ≡ at socket (j ∷ []) (idle (register j (unregister i demux.channels)))
unfolding open_channel drop_channel run_demux
next_channel-at i j socket demux = rw (==_refl i)

register_self : (j : ℕ) (channels : Channels) → register j channels j ≡ some []
unfolding register
register_self j channels = rw (==_refl j)

register_other :
    (i j k : ℕ) (channels : Channels)
    → k ≢ j
    → (k ≢ i → channels k ≡ none)
    → register j (unregister i channels) k ≡ none
unfolding register unregister
register_other i j k channels n h = elim (Bool-cases (j == k)) [
  | inl e ↦ absurd (n (sym ((==_iff j k).0 e)))
  | inr e ↦ rw e (elim (Bool-cases (i == k)) [
    | inl q ↦ rw q refl
    | inr q ↦ rw q (h (λ p. cc (q, ==_refl i, ap (λ x. i == x) p)))
  ])
]

feed-send_all_queues :
    (write : Bytes → ℕ) (sends : List Sent) (channels : Channels)
    → All (IsWhole write) sends
    → let demux = feed (idle channels) (send_all write sends) in
      (demux.reader ≡ in_header [])
      × ((j : ℕ) → demux.channels j ≡ push_all (payloads_for j sends) (channels j))
feed-send_all_queues write sends channels h =
    feed_pieces-send_all write sends channels (send_all write sends ∷ []) h (append-nil _)

-- Payloads `first` are sent and read while the only channel is `i`; this is dropped when they are read,
-- and channel `j` is opened, by which time any part of the payloads `second` may have arrived. Then the
-- queue of `i` got exactly what was sent to it first, and that of `j` holds exactly what was sent to it
-- second, when this is read, no other channel is attached, and the task is between two frames. The
-- payloads and their indices fit 16 bits, and the socket takes each payload in one call.
pub next_channel-send_all :
    (i j : ℕ) (write : Bytes → ℕ) (first second : List Sent) (rest : Bytes) (channels : Channels)
    → All (IsWhole write) first
    → All (IsWhole write) second
    → ((k : ℕ) → k ≢ i → channels k ≡ none)
    → let early = send_all write first in
      let late = send_all write second in
      let c = at (early ++ (late ++ rest)) (i ∷ []) (idle channels) in
      let used = read_bytes (length early) c in
      let done = read_bytes (length late) (next_channel i j used) in
      (used.channels i ≡ push_all (payloads_for i first) (channels i))
      × (done.channels j ≡ some (payloads_for j second))
      × ((k : ℕ) → k ≢ j → done.channels k ≡ none)
      × (done.task ≡ running (in_header []))
      × (done.socket ≡ rest)
next_channel-send_all i j write first second rest channels hf hs alone =
    let early = send_all write first in
    let late = send_all write second in
    let d = feed (idle channels) early in
    let opened = register j (unregister i d.channels) in
    let e = feed (idle opened) late in
    let used = read_bytes-feed early (late ++ rest) (i ∷ []) (idle channels) in
    let done =
      ap (λ u. read_bytes (length late) (next_channel i j u)) used
      ∙ ap (read_bytes (length late)) (next_channel-at i j (late ++ rest) d)
      ∙ read_bytes-feed late rest (j ∷ []) (idle opened) in
    let (r₁, q₁) = feed-send_all_queues write first channels hf in
    let (r₂, q₂) = feed-send_all_queues write second opened hs in
    (
      ap (λ (u : Connection). u.channels i) used ∙ q₁ i,
      ap (λ (u : Connection). u.channels j) done
          ∙ q₂ j
          ∙ ap (push_all (payloads_for j second)) (register_self j (unregister i d.channels)),
      (λ k n.
          ap (λ (u : Connection). u.channels k) done
          ∙ q₂ k
          ∙ ap (push_all (payloads_for k second)) (
              register_other i j k d.channels n
                (λ m. q₁ k ∙ ap (push_all (payloads_for k first)) (alone k m)))),
      ap (λ (u : Connection). u.task) done ∙ ap running r₂,
      ap (λ (u : Connection). u.socket) done,
    )

-- A payload that is not complete yet is in no queue.
feed_part :
    (p : Bytes) (idx missing : ℕ) (got : Bytes) (channels : Channels)
    → length p ≤ missing
    → (feed (record { reader = in_payload idx missing got; channels = channels }) p).channels
      ≡ channels
unfolding feed
feed_part [] idx missing got channels h = refl
feed_part (b ∷ p) idx zero got channels h = absurd (omega arith)
feed_part (b ∷ p) idx (suc missing) got channels h =
    feed_part p idx missing (got ++ b ∷ []) channels (omega arith)

feed_start_part :
    (p : Bytes) (idx n : ℕ) (channels : Channels)
    → length p < n
    → (feed (start_payload idx n channels) p).channels ≡ channels
unfolding start_payload
feed_start_part p idx zero channels h = absurd (omega arith)
feed_start_part p idx (suc n) channels h = feed_part p idx n [] channels (omega arith)

feed_frame_part :
    (n a b c d e f g k : ℕ) (p : Bytes) (channels : Channels)
    → n < 8 + length p
    → read_u16 g k ≡ length p
    → (feed (idle channels) (take n (a ∷ b ∷ c ∷ d ∷ e ∷ f ∷ g ∷ k ∷ p))).channels ≡ channels
unfolding feed
feed_frame_part zero a b c d e f g k p channels lt h = refl
feed_frame_part (suc zero) a b c d e f g k p channels lt h = refl
feed_frame_part (suc (suc zero)) a b c d e f g k p channels lt h = refl
feed_frame_part (suc (suc (suc zero))) a b c d e f g k p channels lt h = refl
feed_frame_part (suc (suc (suc (suc zero)))) a b c d e f g k p channels lt h = refl
feed_frame_part (suc (suc (suc (suc (suc zero))))) a b c d e f g k p channels lt h = refl
feed_frame_part (suc (suc (suc (suc (suc (suc zero)))))) a b c d e f g k p channels lt h = refl
feed_frame_part (suc (suc (suc (suc (suc (suc (suc zero))))))) a b c d e f g k p channels lt h =
    refl
feed_frame_part (suc (suc (suc (suc (suc (suc (suc (suc n)))))))) a b c d e f g k p channels lt h =
    feed_start_part (take n p) (flip_top (read_u16 e f)) (read_u16 g k) channels
      (omega (arith, length-take n p (omega arith), h))

send_part :
    (n micros idx : ℕ) (write : Bytes → ℕ) (payload : Bytes) (channels : Channels)
    → IsU16 (length payload)
    → write payload ≡ length payload
    → n < length (send write micros idx payload)
    → (feed (idle channels) (take n (send write micros idx payload))).channels ≡ channels
unfolding send
send_part n micros idx write payload channels hl hw lt =
    let e : length (take (write payload) payload) ≡ length payload =
      rw (hw, take_all payload) refl in
    feed_frame_part n _ _ _ _ _ _ _ _ (take (write payload) payload) channels (omega (arith, lt))
      (omega (arith, e))

-- If the channel is dropped while the task is inside of a frame, then the payload of this frame reaches
-- no channel, and the task of the next channel takes the byte at which the other stopped for the first
-- of a header. The payload's length fits 16 bits, and the socket takes it in one call.
pub next_channel-inside_frame :
    (i j n micros idx : ℕ) (write : Bytes → ℕ) (payload rest : Bytes) (channels : Channels)
    → IsU16 (length payload)
    → write payload ≡ length payload
    → let frame = send write micros idx payload in
      n < length frame
      → next_channel i j (read_bytes n (at (frame ++ rest) (i ∷ []) (idle channels)))
        ≡ at (drop n frame ++ rest) (j ∷ []) (idle (register j (unregister i channels)))
next_channel-inside_frame i j n micros idx write payload rest channels hl hw lt =
    let frame = send write micros idx payload in
    let front = take n frame in
    let e : length front ≡ n = length-take n frame (omega arith) in
    ap (λ (b : Bytes). next_channel i j (read_bytes n (at (b ++ rest) (i ∷ []) (idle channels))))
      (sym (take-append-drop n frame))
    ∙ ap₂ (λ m (b : Bytes). next_channel i j (read_bytes m (at b (i ∷ []) (idle channels)))) (sym e)
        (append_assoc front (drop n frame) rest)
    ∙ ap (next_channel i j) (read_bytes-feed front (drop n frame ++ rest) (i ∷ []) (idle channels))
    ∙ next_channel-at i j (drop n frame ++ rest) (feed (idle channels) front)
    ∙ ap (λ x. at (drop n frame ++ rest) (j ∷ []) (idle (register j (unregister i x))))
        (send_part n micros idx write payload channels hl hw lt)
