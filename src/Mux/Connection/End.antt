-- ===== src/Mux/Connection/End.antt =====
-- After the end of the stream: the task has panicked, and a channel that waits is not told.
use rust_cardano_ouroboros_n.Prelude.{
  ℕ, ◌≡◌, ◌≢◌, ◌∙◌, sym, ap, subst, refl, inl, inr, List, [], ◌∷◌, arith, Option, none, some, ◌==◌,
  ==_iff, true, false, Bool-cases,
}
use rust_cardano_ouroboros_n.Model.{Bytes}
use rust_cardano_ouroboros_n.Mux.{
  Channels, register, unregister, received, waiting, recv, take_oldest,
}
use rust_cardano_ouroboros_n.Mux.Connection.{
  Connection, Task, stopped, running, failed, new, without, is_live, open_channel, run_demux,
  after_drop, drop_channel, read_byte, end_of_stream, Step, Reach, arrives, reads, ends, opens,
  drops, takes,
}
use rust_cardano_ouroboros_n.Mux.Connection.Invariant.{
  IsConsistent, is_attached, Step-IsConsistent, Reach-IsConsistent, recv-received, is_live-without,
}

-- Steps through which a channel lives.
pub data Keeps (i : ℕ) (c : Connection) : Connection → Type 0 where
  still : Keeps i c c
  then_step : {d e : Connection} → Keeps i c d → Step d e → is_live i e.live ≡ true → Keeps i c e

-- The channel has nothing to receive, and there is no task that could deliver anything.
pub record IsDeaf (i : ℕ) (c : Connection) : Type 0 where
  pub task : c.task ≡ failed
  pub queue : c.channels i ≡ some []

other_key : (i j : ℕ) → i ≢ j → (i == j) ≡ false
other_key i j n = ground (arith, ==_iff i j)

abbrev connection : Bytes → List ℕ → Task → Channels → Connection
connection socket live task channels = record {
  socket = socket;
  live = live;
  task = task;
  channels = channels;
}

-- A task that is not there reads nothing, and does not end once more.
read_byte-failed :
    (socket : Bytes) (live : List ℕ) (task : Task) (channels : Channels)
    → task ≡ failed
    → (read_byte (connection socket live task channels) ≡ connection socket live task channels)
      × (end_of_stream (connection socket live task channels)
          ≡ connection socket live task channels)
unfolding read_byte end_of_stream
read_byte-failed socket live failed channels e = (refl, refl)
read_byte-failed socket live stopped channels e = (refl, refl)
read_byte-failed socket live (running reader) channels e = cc

open_channel-IsDeaf :
    (i idx : ℕ) (socket : Bytes) (live : List ℕ) (task : Task) (channels : Channels)
    → let c = connection socket live task channels in
      is_live idx live ≡ false → is_live i live ≡ true → IsDeaf i c → IsDeaf i (open_channel idx c)
unfolding open_channel run_demux register
open_channel-IsDeaf i idx socket [] task channels n l d = cc
open_channel-IsDeaf i idx socket (k ∷ live) task channels n l d = record {
  task = d.task;
  queue = rw (other_key idx i (λ e. cc (n, l, ap (λ x. is_live x (k ∷ live)) e))) d.queue;
}

drop_channel-IsDeaf :
    (i idx : ℕ) (c : Connection)
    → IsConsistent c
    → is_live i (drop_channel idx c).live ≡ true
    → IsDeaf i c
    → IsDeaf i (drop_channel idx c)
unfolding drop_channel unregister
drop_channel-IsDeaf i idx c h l d = record {
  task = go (without idx c.live) l;
  queue = elim (Bool-cases (idx == i)) [
    | inl e ↦ absurd (ground (arith, is_live-without idx i c.live h.distinct, l, e))
    | inr e ↦ rw e d.queue
  ];
}
  where
    go : (live : List ℕ) → is_live i live ≡ true → after_drop live c.task ≡ failed
    go [] q = cc
    go (k ∷ live) q = d.task

takes-IsDeaf :
    (i idx : ℕ) (channels taken : Channels) (payload : Bytes)
    → channels i ≡ some []
    → recv idx channels ≡ received payload taken
    → taken i ≡ some []
takes-IsDeaf i idx channels taken payload q e =
    let (queue, p, t) = recv-received idx channels payload taken e in
    rw (t, other_key idx i (λ same. cc (p, q, ap channels same))) q

Step-IsDeaf :
    (i : ℕ) {c d : Connection}
    → Step c d
    → IsConsistent c
    → is_live i d.live ≡ true
    → IsDeaf i c
    → IsDeaf i d
Step-IsDeaf i (arrives c piece h) k l d = record { task = d.task; queue = d.queue }
Step-IsDeaf i (reads c) k l d =
    subst (IsDeaf i) (sym (read_byte-failed c.socket c.live c.task c.channels d.task).0) d
Step-IsDeaf i (ends c) k l d =
    subst (IsDeaf i) (sym (read_byte-failed c.socket c.live c.task c.channels d.task).1) d
Step-IsDeaf i (opens c idx h n) k l d =
    open_channel-IsDeaf i idx c.socket c.live c.task c.channels n
      (sym (k.attached i) ∙ ap is_attached d.queue) d
Step-IsDeaf i (drops c idx h) k l d = drop_channel-IsDeaf i idx c k l d
Step-IsDeaf i (takes c idx payload channels h e) k l d = record {
  task = d.task;
  queue = takes-IsDeaf i idx c.channels channels payload d.queue e;
}

Keeps-IsDeaf :
    (i : ℕ) {c d : Connection}
    → Keeps i c d
    → IsConsistent c
    → IsDeaf i c
    → IsConsistent d × IsDeaf i d
Keeps-IsDeaf i still k h = (k, h)
Keeps-IsDeaf i (then_step r s l) k h =
    let (k', h') = Keeps-IsDeaf i r k h in (Step-IsConsistent s k', Step-IsDeaf i s k' l h')

-- What a live channel has to receive is nothing, if `recv` gives no payload.
recv-nothing :
    (i : ℕ) (channels : Channels) (q : Option (List Bytes))
    → channels i ≡ q
    → is_attached q ≡ true
    → ((payload : Bytes) (taken : Channels) → recv i channels ≢ received payload taken)
    → q ≡ some []
unfolding recv
recv-nothing i channels none e a n = cc
recv-nothing i channels (some []) e a n = refl
recv-nothing i channels (some (payload ∷ queue)) e a n =
    absurd (n payload _ (ap (take_oldest i channels) e))

-- When the other side has closed the stream and the task has panicked for it, a live channel from which
-- `recv` gives no payload waits for one as long as it lives: whatever happens, the task does not come
-- back, the channel's sender stays in the table, and so `recv` neither gives a payload nor panics.
pub recv-failed :
    (i : ℕ) {c d : Connection}
    → Reach new c
    → c.task ≡ failed
    → is_live i c.live ≡ true
    → ((payload : Bytes) (taken : Channels) → recv i c.channels ≢ received payload taken)
    → Keeps i c d
    → (d.task ≡ failed) × (d.channels i ≡ some []) × (recv i d.channels ≡ waiting)
unfolding recv
recv-failed i {c} r t l n k =
    let consistent = Reach-IsConsistent r in
    let q = recv-nothing i c.channels (c.channels i) refl (consistent.attached i ∙ l) n in
    let h = (Keeps-IsDeaf i k consistent (record { task = t; queue = q })).1 in
    (h.task, h.queue, rw h.queue)
