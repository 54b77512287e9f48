-- ===== src/Mux/Frames.antt =====
-- What the demultiplexer makes of the bytes that `send` wrote.
use rust_cardano_ouroboros_n.Prelude.{
  ℕ, zero, suc, ◌/◌, ◌%◌, ◌^◌, ◌≡◌, refl, ap, ap₂, ◌∙◌, [], ◌∷◌, ◌++◌, length, take, arith,
  append_assoc, take_all,
}
use rust_cardano_ouroboros_n.Prelude.Int.{IsU16}
use rust_cardano_ouroboros_n.Prelude.Words.{flip_top}
use rust_cardano_ouroboros_n.Model.{Bytes}
use rust_cardano_ouroboros_n.Mux.{
  send, Channels, deliver, in_payload, Demux, idle, start_payload, read_u16, dispatch, feed,
}

-- The bytes may come in any pieces.
pub feed-append : (d : Demux) (xs ys : Bytes) → feed d (xs ++ ys) ≡ feed (feed d xs) ys
unfolding feed
feed-append d [] ys = refl
feed-append d (x ∷ xs) ys = feed-append (dispatch d.reader d.channels x) xs ys

-- A payload's bytes fill the buffer, and the last one delivers it.
feed_payload :
    (p : Bytes) (idx missing : ℕ) (got : Bytes) (channels : Channels) (rest : Bytes)
    → length p ≡ suc missing
    → feed (record { reader = in_payload idx missing got; channels = channels }) (p ++ rest)
      ≡ feed (idle (deliver idx (got ++ p) channels)) rest
unfolding feed
feed_payload [] idx missing got channels rest h = absurd (omega arith)
feed_payload (b ∷ []) idx zero got channels rest h = refl
feed_payload (b ∷ c ∷ p) idx zero got channels rest h = absurd (omega arith)
feed_payload (b ∷ []) idx (suc missing) got channels rest h = absurd (omega arith)
feed_payload (b ∷ c ∷ p) idx (suc missing) got channels rest h =
    feed_payload (c ∷ p) idx missing (got ++ b ∷ []) channels rest (omega arith)
    ∙ ap (λ q. feed (idle (deliver idx q channels)) rest) (append_assoc got (b ∷ []) (c ∷ p))

pub feed_start :
    (p : Bytes) (idx n : ℕ) (channels : Channels) (rest : Bytes)
    → length p ≡ n
    → feed (start_payload idx n channels) (p ++ rest) ≡ feed (idle (deliver idx p channels)) rest
unfolding start_payload
feed_start [] idx zero channels rest h = refl
feed_start [] idx (suc n) channels rest h = absurd (omega arith)
feed_start (b ∷ p) idx zero channels rest h = absurd (omega arith)
feed_start (b ∷ p) idx (suc n) channels rest h = feed_payload (b ∷ p) idx n [] channels rest h

-- `read_u16` of what `write_u16` wrote.
read_back : (n : ℕ) → IsU16 n → read_u16 (n / 256 % 256) (n % 256) ≡ n
read_back n h = omega arith

-- A header sends the reader into a payload of the length that the header gives.
pub feed-send :
    (write : Bytes → ℕ) (micros idx : ℕ) (payload : Bytes) (channels : Channels) (rest : Bytes)
    → IsU16 idx
    → feed (idle channels) (send write micros idx payload ++ rest)
      ≡ feed
          (start_payload (flip_top idx) (length payload % 2 ^ 16) channels)
          (take (write payload) payload ++ rest)
unfolding feed send
feed-send write micros idx payload channels rest h =
    ap₂ (λ i n. feed (start_payload (flip_top i) n channels) (take (write payload) payload ++ rest))
      (read_back idx h) (read_back (length payload % 2 ^ 16) (omega arith))

-- Sent whole, a payload below 64 KiB is delivered to the channel of the other side, whatever follows.
pub feed-send_whole :
    (write : Bytes → ℕ) (micros idx : ℕ) (payload : Bytes) (channels : Channels) (rest : Bytes)
    → IsU16 idx
    → IsU16 (length payload)
    → write payload ≡ length payload
    → feed (idle channels) (send write micros idx payload ++ rest)
      ≡ feed (idle (deliver (flip_top idx) payload channels)) rest
feed-send_whole write micros idx payload channels rest hi hl hw =
    feed-send write micros idx payload channels rest hi
    ∙ rw (hw, take_all payload, length_kept)
        (feed_start payload (flip_top idx) _ channels rest refl)
  where
    length_kept : length payload % 2 ^ 16 ≡ length payload
    length_kept = omega arith
