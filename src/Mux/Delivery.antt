-- ===== src/Mux/Delivery.antt =====
-- Whole runs of sends: every channel gets its payloads, in order, and nothing else.
use rust_cardano_ouroboros_n.Prelude.{
  ℕ, ◌+◌, ◌%◌, ◌^◌, ◌≤◌, ◌<◌, ◌≡◌, refl, sym, ap, ◌∙◌, List, [], ◌∷◌, ◌++◌, length, take, drop,
  arith, append_assoc, append-nil, take_all, take-append-drop, length-take, length-append, All,
  Option, none, some, if◌then◌else◌, ◌==◌, concat, Bool-cases, inl, inr, ==_iff,
}
use rust_cardano_ouroboros_n.Prelude.Int.{IsU16}
use rust_cardano_ouroboros_n.Prelude.Words.{flip_top}
use rust_cardano_ouroboros_n.Model.{Bytes}
use rust_cardano_ouroboros_n.Mux.{
  send, send_all, Sent, Channels, deliver, enqueue, Demux, in_header, idle, start_payload, feed,
}
use rust_cardano_ouroboros_n.Mux.Frames.{feed-append, feed-send, feed-send_whole, feed_start}

-- The indices and payloads fit their 16-bit fields, and the socket takes each payload at once.
abbrev pub IsWhole : (Bytes → ℕ) → Sent → Type 0
IsWhole write s = IsU16 s.idx × IsU16 (length s.payload) × (write s.payload ≡ length s.payload)

-- What was sent to the channel that the other side calls `j`, oldest first.
abbrev pub payloads_for : ℕ → List Sent → List Bytes
payloads_for j [] = []
payloads_for j (s ∷ sends) =
    let later = payloads_for j sends in if flip_top s.idx == j then s.payload ∷ later else later

abbrev pub push_all : List Bytes → Option (List Bytes) → Option (List Bytes)
push_all payloads none = none
push_all payloads (some queue) = some (queue ++ payloads)

deliver_all : List Sent → Channels → Channels
deliver_all [] channels = channels
deliver_all (s ∷ sends) channels = deliver_all sends (deliver (flip_top s.idx) s.payload channels)

push_all-nil : (q : Option (List Bytes)) → push_all [] q ≡ q
push_all-nil none = refl
push_all-nil (some q) = ap some (append-nil q)

push_all-enqueue :
    (p : Bytes) (ps : List Bytes) (q : Option (List Bytes))
    → push_all ps (enqueue p q) ≡ push_all (p ∷ ps) q
push_all-enqueue p ps none = refl
push_all-enqueue p ps (some q) = ap some (append_assoc q (p ∷ []) ps)

pub deliver-eq :
    (i : ℕ) (p : Bytes) (channels : Channels) (j : ℕ)
    → deliver i p channels j ≡ (if i == j then enqueue p (channels j) else channels j)
unfolding deliver
deliver-eq i p channels j = elim (Bool-cases (i == j)) [
  | inl e ↦ rw (e, (==_iff i j).0 e)
  | inr e ↦ rw e
]

deliver_all-eq :
    (sends : List Sent) (channels : Channels) (j : ℕ)
    → deliver_all sends channels j ≡ push_all (payloads_for j sends) (channels j)
unfolding deliver_all
deliver_all-eq [] channels j = sym (push_all-nil (channels j))
deliver_all-eq (s ∷ sends) channels j =
    deliver_all-eq sends (deliver (flip_top s.idx) s.payload channels) j
    ∙ rw (deliver-eq (flip_top s.idx) s.payload channels j)
        (elim (Bool-cases (flip_top s.idx == j)) [
          | inl e ↦ rw e (push_all-enqueue s.payload (payloads_for j sends) (channels j))
          | inr e ↦ rw e refl
        ])

feed-send_all :
    (write : Bytes → ℕ) (sends : List Sent) (channels : Channels)
    → All (IsWhole write) sends
    → feed (idle channels) (send_all write sends) ≡ idle (deliver_all sends channels)
unfolding send_all deliver_all feed
feed-send_all write [] channels h = refl
feed-send_all write (s ∷ sends) channels ((hi, hl, hw), hs) =
    feed-send_whole write s.micros s.idx s.payload channels (send_all write sends) hi hl hw
    ∙ feed-send_all write sends (deliver (flip_top s.idx) s.payload channels) hs

-- The bytes as they arrive, piece by piece.
abbrev pub feed_pieces : Demux → List Bytes → Demux
feed_pieces d [] = d
feed_pieces d (piece ∷ pieces) = feed_pieces (feed d piece) pieces

-- However the bytes are cut into pieces, the demultiplexer comes to the same state.
pub feed_pieces-concat :
    (d : Demux) (pieces : List Bytes) → feed_pieces d pieces ≡ feed d (concat pieces)
feed_pieces-concat d [] = unfold feed in refl
feed_pieces-concat d (piece ∷ pieces) =
    feed_pieces-concat (feed d piece) pieces ∙ sym (feed-append d piece (concat pieces))

-- If every send's index and payload length fit 16 bits and the socket takes each payload in one
-- call, then however the bytes are cut on their way, each attached channel's queue grows by exactly
-- the payloads sent to it, in order, no other channel appears, and the reader is between two frames.
pub feed_pieces-send_all :
    (write : Bytes → ℕ) (sends : List Sent) (channels : Channels) (pieces : List Bytes)
    → All (IsWhole write) sends
    → concat pieces ≡ send_all write sends
    → let demux = feed_pieces (idle channels) pieces in
      (demux.reader ≡ in_header [])
      × ((j : ℕ) → demux.channels j ≡ push_all (payloads_for j sends) (channels j))
feed_pieces-send_all write sends channels pieces h e =
    let whole =
      feed_pieces-concat (idle channels) pieces
      ∙ ap (feed (idle channels)) e
      ∙ feed-send_all write sends channels h in
    (
      ap (λ (d : Demux). d.reader) whole,
      λ j. ap (λ (d : Demux). d.channels j) whole ∙ deliver_all-eq sends channels j,
    )

-- Where the length of a payload does not fit 16 bits and its index does, and the socket takes the
-- whole payload, only the first `length % 2 ^ 16` bytes, which are fewer than the payload's, are
-- delivered, and the reader takes the next byte of the payload for the start of a header.
pub feed-send_oversized :
    (micros idx : ℕ) (payload : Bytes) (channels : Channels) (rest : Bytes)
    → IsU16 idx
    → 2 ^ 16 ≤ length payload
    → let kept = length payload % 2 ^ 16 in
      (kept < length payload)
      × (feed (idle channels) (send length micros idx payload ++ rest)
          ≡ feed
              (idle (deliver (flip_top idx) (take kept payload) channels))
              (drop kept payload ++ rest))
feed-send_oversized micros idx payload channels rest hi hl =
    let kept = length payload % 2 ^ 16 in
    (
      omega arith,
      feed-send length micros idx payload channels rest hi
          ∙ rw (take_all payload) (
              ap (λ p. feed (start_payload (flip_top idx) kept channels) (p ++ rest))
                (sym (take-append-drop kept payload)))
          ∙ ap (feed (start_payload (flip_top idx) kept channels))
              (append_assoc (take kept payload) (drop kept payload) rest)
          ∙ feed_start (take kept payload) (flip_top idx) kept channels (drop kept payload ++ rest)
              (length-take kept payload (omega arith)),
    )

-- Where the socket takes only the first bytes of a payload, whose length fits 16 bits as its index
-- does, the bytes that are sent next, as many as are missing, fill the payload up and are delivered
-- with it.
pub feed-send_partial :
    (write : Bytes → ℕ) (micros idx : ℕ) (payload : Bytes) (channels : Channels) (next rest : Bytes)
    → IsU16 idx
    → IsU16 (length payload)
    → write payload + length next ≡ length payload
    → feed (idle channels) (send write micros idx payload ++ (next ++ rest))
      ≡ feed (idle (deliver (flip_top idx) (take (write payload) payload ++ next) channels)) rest
feed-send_partial write micros idx payload channels next rest hi hl hn =
    let front = take (write payload) payload in
    feed-send write micros idx payload channels (next ++ rest) hi
    ∙ ap (feed (start_payload (flip_top idx) (length payload % 2 ^ 16) channels))
        (sym (append_assoc front next rest))
    ∙ feed_start (front ++ next) (flip_top idx) (length payload % 2 ^ 16) channels rest filled
  where
    filled : length (take (write payload) payload ++ next) ≡ length payload % 2 ^ 16
    filled =
        length-append (take (write payload) payload) next
        ∙ omega (arith, length-take (write payload) payload (omega arith))
