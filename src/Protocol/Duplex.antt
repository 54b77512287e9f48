-- ===== src/Protocol/Duplex.antt =====
-- src/protocols.rs, `execute` on both ends of a connection: two machines that take their turns in any
-- order, with the bytes that are on their way between them.
pub mod Reading
use rust_cardano_ouroboros_n.Prelude.{
  ℕ, zero, suc, ◌<◌, ◌≡◌, ◌≢◌, ◌⊎◌, inl, inr, refl, sym, ap, subst, ◌∙◌, Bool, true, false, Option,
  List, [], ◌∷◌, ◌++◌, append-nil, append_assoc, take, drop, take-append-drop, length, length-drop,
  arith,
}
use rust_cardano_ouroboros_n.Prelude.Outcome.{Outcome, ok, err, panic}
use rust_cardano_ouroboros_n.Model.{Bytes}
use rust_cardano_ouroboros_n.Cbor.{Codec, IsCodec, Items}
use rust_cardano_ouroboros_n.Protocol.{
  Agency, same_agency, Protocol, Channel, Consumed, keep, all_read, Execution, finished, waiting,
  handle, send_bytes, receive_bytes, execute,
}
use rust_cardano_ouroboros_n.Protocol.Stream.{encode, IsWritable}
use rust_cardano_ouroboros_n.Protocol.Receive.{Hears, kept, handle_all, receive_bytes-encode_all}

-- What one turn of the loop does.
pub data Turn (S : Type 0) : Type 0 where
  sends : S → Bytes → Turn S
  reads : S → Bytes → Turn S
  over waits panicked stuck : Turn S

abbrev pub after_send : {S : Type 0} → Outcome (Bytes × S) → Turn S
after_send (ok (b, s)) = sends s b
after_send (err e) = panicked
after_send panic = panicked

abbrev pub after_receive : {S : Type 0} → Consumed S → Turn S
after_receive (keep s rest) = reads s rest
after_receive (all_read s) = reads s []
after_receive Consumed.panicked = panicked
after_receive Consumed.stuck = stuck

abbrev pub head? : List Bytes → Option Bytes
head? [] = Option.none
head? (piece ∷ later) = Option.some piece

abbrev pub tail : List Bytes → List Bytes
tail [] = []
tail (piece ∷ later) = later

module _ {S M : Type 0} (p : Protocol S M) (codec : Codec) where
  -- The body of the loop, with the bytes kept from the last frame, and what has arrived.
  unfoldable pub turn : S → Bytes → Option Bytes → Turn S
  turn s held arrived = elim (same_agency (p.agency s) Agency.none) [
    | true ↦ over
    | false ↦ elim (same_agency (p.agency s) (p.role s)) [
      | true ↦ after_send (send_bytes p s)
      | false ↦ elim arrived [
        | Option.none ↦ waits
        | Option.some piece ↦ after_receive (receive_bytes p codec s (held ++ piece))
      ]
    ]
  ]

  abbrev pub go_on : ℕ → S → Channel → Turn S → Execution S
  go_on fuel s ch (sends s' b) =
      execute p codec fuel s' (record ch { outbox = ch.outbox ++ b ∷ [] })
  go_on fuel s ch (reads s' rest) =
      execute p codec fuel s' (record ch { bytes = rest; inbox = tail ch.inbox })
  go_on fuel s ch over = finished s ch
  go_on fuel s ch waits = waiting s (record ch { bytes = [] }) ch.bytes
  go_on fuel s ch panicked = Execution.panicked
  go_on fuel s ch stuck = Execution.stuck

  -- `execute` is such turns, one after the other.
  pub execute-turn :
      (fuel : ℕ) (s : S) (held : Bytes) (inbox sent : List Bytes)
      → let ch : Channel = record { bytes = held; inbox = inbox; outbox = sent } in
        execute p codec (suc fuel) s ch ≡ go_on fuel s ch (turn s held (head? inbox))
  unfolding execute turn
  execute-turn fuel s held inbox sent =
      by_agency (same_agency (p.agency s) Agency.none) (same_agency (p.agency s) (p.role s)) inbox
        refl refl
    where
      by_agency :
          (over? own? : Bool) (inbox' : List Bytes)
          → same_agency (p.agency s) Agency.none ≡ over?
          → same_agency (p.agency s) (p.role s) ≡ own?
          → let ch : Channel = record { bytes = held; inbox = inbox'; outbox = sent } in
            execute p codec (suc fuel) s ch ≡ go_on fuel s ch (turn s held (head? inbox'))
      by_agency true own? inbox' h k = rw (h, execute, turn)
      by_agency false true inbox' h k = rw (h, k, execute, turn) (ground arith)
      by_agency false false [] h k = rw (h, k, execute, turn)
      by_agency false false (piece ∷ later) h k = rw (h, k, execute, turn) (ground arith)

  pub turn-ended :
      (s : S) (held : Bytes) (arrived : Option Bytes)
      → same_agency (p.agency s) Agency.none ≡ true
      → turn s held arrived ≡ over
  unfolding turn
  turn-ended s held arrived h = rw (h, turn)

  pub turn_send :
      (s s' : S) (held b : Bytes) (arrived : Option Bytes)
      → same_agency (p.agency s) Agency.none ≡ false
      → same_agency (p.agency s) (p.role s) ≡ true
      → send_bytes p s ≡ ok (b, s')
      → turn s held arrived ≡ sends s' b
  unfolding turn
  turn_send s s' held b arrived h k e = rw (h, k, e, turn)

  pub turn_receive :
      (s : S) (held : Bytes) (arrived : Option Bytes)
      → Hears p s
      → turn s held arrived ≡ elim arrived [
        | Option.none ↦ waits
        | Option.some piece ↦ after_receive (receive_bytes p codec s (held ++ piece))
      ]
  unfolding turn
  turn_receive s held arrived (h, k) = rw (h, k, turn)

-- Two ends with the bytes that they have kept, and those that are on their way to them.
pub record Pair (S T : Type 0) : Type 0 where
  pub left : S
  pub left_held : Bytes
  pub to_left : Bytes
  pub right : T
  pub right_held : Bytes
  pub to_right : Bytes

-- An end takes a turn. If it has to read, then a number of bytes has arrived, or all that are on their
-- way if these are fewer.
pub data Move : Type 0 where
  left_turn right_turn : ℕ → Move

pub data After (S T : Type 0) : Type 0 where
  reached : Pair S T → After S T
  -- An end has panicked.
  broken : After S T

abbrev pub arrived : Bytes → Option Bytes
arrived [] = Option.none
arrived (b ∷ bytes) = Option.some (b ∷ bytes)

module _ {S T : Type 0} where
  abbrev pub after_left : ℕ → Pair S T → Turn S → After S T
  after_left n x (sends s b) = reached (record x { left = s; to_right = x.to_right ++ b })
  after_left n x (reads s rest) =
      reached (record x { left = s; left_held = rest; to_left = drop n x.to_left })
  after_left n x over = reached x
  after_left n x waits = reached x
  after_left n x panicked = broken
  after_left n x stuck = broken

  abbrev pub after_right : ℕ → Pair S T → Turn T → After S T
  after_right n x (sends t b) = reached (record x { right = t; to_left = x.to_left ++ b })
  after_right n x (reads t rest) =
      reached (record x { right = t; right_held = rest; to_right = drop n x.to_right })
  after_right n x over = reached x
  after_right n x waits = reached x
  after_right n x panicked = broken
  after_right n x stuck = broken

  abbrev pub and_then : After S T → (Pair S T → After S T) → After S T
  and_then (reached x) more = more x
  and_then broken more = broken

module _ {S T M N : Type 0} (p : Protocol S M) (q : Protocol T N) (codec : Codec) where
  unfoldable pub step : Move → Pair S T → After S T
  unfolding turn
  step (left_turn n) x =
      after_left n x (turn p codec x.left x.left_held (arrived (take n x.to_left)))
  step (right_turn n) x =
      after_right n x (turn q codec x.right x.right_held (arrived (take n x.to_right)))

  unfoldable pub run : List Move → Pair S T → After S T
  run [] x = reached x
  run (m ∷ moves) x = and_then (step m x) (run moves)
