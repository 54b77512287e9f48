-- ===== src/Protocol/Traces.antt =====
-- src/protocols.rs: what a run of `execute` exchanges, as a path through a relation between the states of
-- a machine. The relation says which message may be sent or received in a state, and where it leads.
use rust_cardano_ouroboros_n.Prelude.{
  ℕ, zero, suc, ◌≡◌, refl, sym, subst, ◌∙◌, Bool, true, false, Option, List, [], ◌∷◌, ◌++◌,
  append-nil, append_assoc, if◌then◌else◌, not, ◌&&◌,
}
use rust_cardano_ouroboros_n.Prelude.Outcome.{Outcome, ok, err, panic}
use rust_cardano_ouroboros_n.Model.{Bytes}
use rust_cardano_ouroboros_n.Cbor.{Codec, Items, Next, no_more, item, eof, broken}
use rust_cardano_ouroboros_n.Protocol.{
  Agency, same_agency, Protocol, Channel, Consumed, keep, all_read, Execution, finished, waiting,
  is_empty, handle, send_bytes, receive_loop, receive_bytes, execute,
}
use rust_cardano_ouroboros_n.Protocol.Duplex.{
  Turn, sends, reads, over, waits, turn, go_on, execute-turn, after_send, after_receive, head?,
}

-- A message that a machine sends or receives.
pub data Event (M : Type 0) : Type 0 where
  sent heard : M → Event M

module _ {S M : Type 0} (p : Protocol S M) (codec : Codec) (May : S → Event M → S → Type 0) where
  -- Events one after the other, each where the machine may do it.
  pub data Trace : S → List (Event M) → S → Type 0 where
    done : (s : S) → Trace s [] s
    step :
        {s t u : S} {events : List (Event M)} (e : Event M)
        → May s e t
        → Trace t events u
        → Trace s (e ∷ events) u

  Trace-append :
      {s t u : S} {front back : List (Event M)}
      → Trace s front t
      → Trace t back u
      → Trace s (front ++ back) u
  Trace-append (done s) k = k
  Trace-append (step e m h) k = step e m (Trace-append h k)

  -- How some events use the bytes that are held and the pieces that arrive, and what is left of both. A
  -- message that is heard is what `from_iter` makes of the next item at the front of the bytes held, in
  -- front of which no byte is passed over; a piece that arrives is put behind them; and the messages that
  -- are sent are written to the bytes `new`, in their order.
  pub data Reads
      : Bytes → List Bytes → List (Event M) → List Bytes → Bytes → List Bytes → Type 0 where
    nothing : (held : Bytes) (inbox : List Bytes) → Reads held inbox [] [] held inbox
    one_arrives :
        {held piece rest : Bytes} {inbox later new : List Bytes} {events : List (Event M)}
        → Reads (held ++ piece) inbox events new rest later
        → Reads held (piece ∷ inbox) events new rest later
    one_sent :
        {held rest : Bytes} {inbox later new : List Bytes} {events : List (Event M)} (m : M)
        (b : Bytes)
        → p.to_bytes m ≡ ok b
        → Reads held inbox events new rest later
        → Reads held inbox (sent m ∷ events) (b ∷ new) rest later
    one_heard :
        {held behind rest : Bytes} {inbox later new : List Bytes} {events : List (Event M)} (m : M)
        (values : Items)
        → codec.next held ≡ item values behind
        → p.from_iter values ≡ ok m
        → Reads behind inbox events new rest later
        → Reads held inbox (heard m ∷ events) new rest later

  Reads-append :
      {held middle rest : Bytes} {inbox half later out new : List Bytes}
      {front back : List (Event M)}
      → Reads held inbox front out middle half
      → Reads middle half back new rest later
      → Reads held inbox (front ++ back) (out ++ new) rest later
  Reads-append (nothing held inbox) k = k
  Reads-append (one_arrives h) k = one_arrives (Reads-append h k)
  Reads-append (one_sent m b w h) k = one_sent m b w (Reads-append h k)
  Reads-append (one_heard m values n i h) k = one_heard m values n i (Reads-append h k)

  -- What the machine does is what it may do.
  pub record IsTyped : Type 0 where
    pub sends_typed :
        (s t : S) (b : Bytes)
        → send_bytes p s ≡ ok (b, t)
        → (m : M) × May s (sent m) t × (p.to_bytes m ≡ ok b)
    pub handles_typed :
        (s t : S) (values : Items)
        → handle p s values ≡ ok t
        → (m : M) × May s (heard m) t × (p.from_iter values ≡ ok m)

  -- A run from `s` with bytes held and pieces that arrive, that has sent `out` so far, and has come to an
  -- end or waits.
  pub data Follows (s : S) (held : Bytes) (inbox out : List Bytes) : Execution S → Type 0 where
    follows_to_end :
        {t : S} {ch : Channel} (events : List (Event M)) (new : List Bytes)
        → Trace s events t
        → Reads held inbox events new ch.bytes ch.inbox
        → ch.outbox ≡ out ++ new
        → Follows s held inbox out (finished t ch)
    follows_to_wait :
        {t : S} {ch : Channel} {rest : Bytes} (events : List (Event M)) (new : List Bytes)
        → Trace s events t
        → Reads held inbox events new rest ch.inbox
        → ch.inbox ≡ []
        → ch.outbox ≡ out ++ new
        → Follows s held inbox out (waiting t ch rest)
    panics : Follows s held inbox out Execution.panicked
    runs_out : Follows s held inbox out Execution.stuck

  -- What reading some bytes comes to: a path of received messages, whatever arrives later.
  data Took (s : S) (b : Bytes) : Consumed S → Type 0 where
    took_part :
        {t : S} {rest : Bytes} (events : List (Event M))
        → Trace s events t
        → ((inbox : List Bytes) → Reads b inbox events [] rest inbox)
        → Took s b (keep t rest)
    took_all :
        {t : S} (events : List (Event M))
        → Trace s events t
        → ((inbox : List Bytes) → Reads b inbox events [] [] inbox)
        → Took s b (all_read t)
    took_panic : Took s b Consumed.panicked
    took_too_much : Took s b Consumed.stuck

  Took-heard :
      {s t : S} {b behind : Bytes} {x : Consumed S} (m : M) (values : Items)
      → May s (heard m) t
      → codec.next b ≡ item values behind
      → p.from_iter values ≡ ok m
      → Took t behind x
      → Took s b x
  Took-heard m values may n i (took_part events h r) =
      took_part (heard m ∷ events) (step (heard m) may h)
        (λ inbox. one_heard m values n i (r inbox))
  Took-heard m values may n i (took_all events h r) =
      took_all (heard m ∷ events) (step (heard m) may h) (λ inbox. one_heard m values n i (r inbox))
  Took-heard m values may n i took_panic = took_panic
  Took-heard m values may n i took_too_much = took_too_much

  module _ (typed : IsTyped) where
    receive_loop-Took :
        (fuel : ℕ) (s : S) (rest : Bytes) → Took s rest (receive_loop p codec fuel s rest)
    unfolding receive_loop
    receive_loop-Took zero s rest = took_too_much
    receive_loop-Took (suc fuel) s rest = by_next (codec.next rest) refl (receive_loop-Took fuel)
      where
        is_nothing : (b : Bytes) → Took s b (if is_empty b then all_read s else Consumed.panicked)
        is_nothing [] = took_all [] (done s) (λ inbox. nothing [] inbox)
        is_nothing (c ∷ b) = took_panic

        by_handled :
            (o : Outcome S) (v : Items) (rest' : Bytes)
            → codec.next rest ≡ item v rest'
            → handle p s v ≡ o
            → ((t : S) (d : Bytes) → Took t d (receive_loop p codec fuel t d))
            → Took s rest (elim o [
              | ok t ↦ receive_loop p codec fuel t rest'
              | err e ↦ Consumed.panicked
              | panic ↦ Consumed.panicked
            ])
        by_handled (ok t) v rest' n e ih =
            let (m, may, i) = typed.handles_typed s t v e in Took-heard m v may n i (ih t rest')
        by_handled (err x) v rest' n e ih = took_panic
        by_handled panic v rest' n e ih = took_panic

        by_next :
            (n : Next)
            → codec.next rest ≡ n
            → ((t : S) (d : Bytes) → Took t d (receive_loop p codec fuel t d))
            → Took s rest (elim n [
              | no_more ↦ if is_empty rest then all_read s else Consumed.panicked
              | item v rest' ↦ elim (handle p s v) [
                | ok t ↦ receive_loop p codec fuel t rest'
                | err e ↦ Consumed.panicked
                | panic ↦ Consumed.panicked
              ]
              | eof ↦ keep s rest
              | broken ↦ Consumed.panicked
            ])
        by_next no_more q ih = is_nothing rest
        by_next (item v rest') q ih = by_handled (handle p s v) v rest' q refl ih
        by_next eof q ih = took_part [] (done s) (λ inbox. nothing rest inbox)
        by_next broken q ih = took_panic

    receive_bytes-Took : (s : S) (b : Bytes) → Took s b (receive_bytes p codec s b)
    unfolding receive_bytes
    receive_bytes-Took s b =
        by_agency
          (not (same_agency (p.agency s) Agency.none) && not (same_agency (p.agency s) (p.role s)))
          (receive_loop-Took _ s b)
      where
        by_agency :
            (a : Bool) {x : Consumed S} → Took s b x → Took s b (if a then x else Consumed.panicked)
        by_agency true h = h
        by_agency false h = took_panic

    -- What a turn comes to.
    data Turned (s : S) (held : Bytes) : Option Bytes → Turn S → Type 0 where
      turned_send :
          {t : S} {b : Bytes} {arrived : Option Bytes} (m : M)
          → May s (sent m) t
          → p.to_bytes m ≡ ok b
          → Turned s held arrived (sends t b)
      turned_read :
          {t : S} {piece rest : Bytes} (events : List (Event M))
          → Trace s events t
          → ((inbox : List Bytes) → Reads (held ++ piece) inbox events [] rest inbox)
          → Turned s held (Option.some piece) (reads t rest)
      turned_over : {arrived : Option Bytes} → Turned s held arrived over
      turned_wait : Turned s held Option.none waits
      turned_panic : {arrived : Option Bytes} → Turned s held arrived Turn.panicked
      turned_stuck : {arrived : Option Bytes} → Turned s held arrived Turn.stuck

    Turned-send :
        (s : S) (held : Bytes) (arrived : Option Bytes) (o : Outcome (Bytes × S))
        → send_bytes p s ≡ o
        → Turned s held arrived (after_send o)
    Turned-send s held arrived (ok (b, t)) e =
        let (m, may, w) = typed.sends_typed s t b e in turned_send m may w
    Turned-send s held arrived (err x) e = turned_panic
    Turned-send s held arrived panic e = turned_panic

    Turned-receive :
        {s : S} {x : Consumed S} (held piece : Bytes)
        → Took s (held ++ piece) x
        → Turned s held (Option.some piece) (after_receive x)
    Turned-receive held piece (took_part events h r) = turned_read events h r
    Turned-receive held piece (took_all events h r) = turned_read events h r
    Turned-receive held piece took_panic = turned_panic
    Turned-receive held piece took_too_much = turned_stuck

    turn-Turned :
        (s : S) (held : Bytes) (piece : Option Bytes)
        → Turned s held piece (turn p codec s held piece)
    unfolding turn
    turn-Turned s held piece =
        by_agency (same_agency (p.agency s) Agency.none) (same_agency (p.agency s) (p.role s)) piece
      where
        by_agency :
            (over? own? : Bool) (arrived : Option Bytes)
            → Turned s held arrived (elim over? [
              | true ↦ over
              | false ↦ elim own? [
                | true ↦ after_send (send_bytes p s)
                | false ↦ elim arrived [
                  | Option.none ↦ waits
                  | Option.some d ↦ after_receive (receive_bytes p codec s (held ++ d))
                ]
              ]
            ])
        by_agency true own? arrived = turned_over
        by_agency false true arrived = Turned-send s held arrived (send_bytes p s) refl
        by_agency false false Option.none = turned_wait
        by_agency false false (Option.some d) =
            Turned-receive held d (receive_bytes-Took s (held ++ d))

    -- A path in front of a run.
    Follows-after :
        {s t : S} {x : Execution S} {front : List (Event M)} {held middle : Bytes}
        {inbox half : List Bytes} (out first : List Bytes)
        → Trace s front t
        → Reads held inbox front first middle half
        → Follows t middle half (out ++ first) x
        → Follows s held inbox out x
    Follows-after out first h r (follows_to_end events new k l e) =
        follows_to_end _ (first ++ new) (Trace-append h k) (Reads-append r l)
          (e ∙ append_assoc out first new)
    Follows-after out first h r (follows_to_wait events new k l q e) =
        follows_to_wait _ (first ++ new) (Trace-append h k) (Reads-append r l) q
          (e ∙ append_assoc out first new)
    Follows-after out first h r panics = panics
    Follows-after out first h r runs_out = runs_out

    -- Where what a machine sends and takes in is what it may, a whole run is a path.
    pub execute-Follows :
        (fuel : ℕ) (s : S) (held : Bytes) (inbox out : List Bytes)
        → Follows s held inbox out
            (execute p codec fuel s (record { bytes = held; inbox = inbox; outbox = out }))
    unfolding execute
    execute-Follows zero s held inbox out = runs_out
    execute-Follows (suc fuel) s held inbox out =
        subst (Follows s held inbox out) (sym (execute-turn p codec fuel s held inbox out)) (
          by_turn inbox (head? inbox) (turn p codec s held (head? inbox)) refl
            (turn-Turned s held (head? inbox))
            λ t rest later new. execute-Follows fuel t rest later new)
      where
        by_piece :
            (pieces : List Bytes) (piece rest : Bytes) {t : S} (events : List (Event M))
            → head? pieces ≡ Option.some piece
            → Trace s events t
            → ((later : List Bytes) → Reads (held ++ piece) later events [] rest later)
            → ((t : S) (rest : Bytes) (later new : List Bytes)
                → Follows t rest later new
                    (execute p codec fuel t (record { bytes = rest; inbox = later; outbox = new })))
            → Follows s held pieces out (
                go_on p codec fuel s
                  (record { bytes = held; inbox = pieces; outbox = out })
                  (reads t rest))
        by_piece [] piece rest events q h r ih = cc
        by_piece (first ∷ later) piece rest {t} events q h r ih =
            let same : piece ≡ first = cc in
            Follows-after out [] h
              (one_arrives
                (subst (λ d. Reads (held ++ d) later events [] rest later) same (r later)))
              (subst
                (λ l.
                  Follows t rest later l
                    (execute p codec fuel t (record { bytes = rest; inbox = later; outbox = out })))
                (sym (append-nil out)) (ih t rest later out))

        by_wait :
            (pieces : List Bytes)
            → head? pieces ≡ Option.none
            → Follows s held pieces out
                (go_on p codec fuel s (record { bytes = held; inbox = pieces; outbox = out }) waits)
        by_wait [] q = follows_to_wait [] [] (done s) (nothing held []) refl (sym (append-nil out))
        by_wait (piece ∷ later) q = cc

        by_turn :
            (pieces : List Bytes) (arrived : Option Bytes) (x : Turn S)
            → head? pieces ≡ arrived
            → Turned s held arrived x
            → ((t : S) (rest : Bytes) (later new : List Bytes)
                → Follows t rest later new
                    (execute p codec fuel t (record { bytes = rest; inbox = later; outbox = new })))
            → Follows s held pieces out
                (go_on p codec fuel s (record { bytes = held; inbox = pieces; outbox = out }) x)
        by_turn pieces _ (sends t b) q (turned_send m may w) ih =
            Follows-after out (b ∷ []) (step (sent m) may (done t))
              (one_sent m b w (nothing held pieces)) (ih t held pieces (out ++ b ∷ []))
        by_turn pieces _ (reads t rest) q (turned_read {piece = piece} events h r) ih =
            by_piece pieces piece rest events q h r ih
        by_turn pieces _ over q h ih =
            follows_to_end [] [] (done s) (nothing held pieces) (sym (append-nil out))
        by_turn pieces _ waits q turned_wait ih = by_wait pieces q
        by_turn pieces _ Turn.panicked q h ih = panics
        by_turn pieces _ Turn.stuck q h ih = runs_out
