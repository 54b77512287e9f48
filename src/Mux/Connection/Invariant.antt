-- ===== src/Mux/Connection/Invariant.antt =====
-- What holds of a connection whatever happens to it.
use rust_cardano_ouroboros_n.Prelude.{
  ℕ, zero, suc, ◌≡◌, ◌≢◌, ◌∙◌, ap, refl, inl, inr, List, [], ◌∷◌, ◌++◌, All, arith, Bool, true,
  false, Option, none, some, ◌==◌, ==_iff, if◌then◌else◌, Bool-cases,
}
use rust_cardano_ouroboros_n.Prelude.Int.{IsU16}
use rust_cardano_ouroboros_n.Prelude.Words.{flip_top}
use rust_cardano_ouroboros_n.Model.{Bytes}
use rust_cardano_ouroboros_n.Mux.{
  Channels, Reader, in_header, in_payload, start_payload, read_u16, parse_header, dispatch, deliver,
  register, unregister, update, received, recv, take_oldest,
}
use rust_cardano_ouroboros_n.Mux.Delivery.{deliver-eq}
use rust_cardano_ouroboros_n.Mux.Connection.{
  Connection, Task, stopped, running, failed, new, without, is_live, open_channel, run_demux,
  after_drop, drop_channel, read_byte, end_of_stream, Step, Reach, here, next, arrives, reads, ends,
  opens, drops, takes,
}
use rust_cardano_ouroboros_n.Mux.Connection.Bounds.{IsByte, IsReader, All-append, dispatch-IsReader}

abbrev pub is_attached : Option (List Bytes) → Bool
is_attached none = false
is_attached (some queue) = true

abbrev pub IsDistinct : List ℕ → Type 0
IsDistinct [] = Unit {0}
IsDistinct (i ∷ rest) = (is_live i rest ≡ false) × IsDistinct rest

-- There is a task exactly while a channel lives, and its buffers are within their bounds.
abbrev pub IsTask : List ℕ → Task → Type 0
IsTask [] stopped = Unit {0}
IsTask [] task = ⊥
IsTask (i ∷ rest) stopped = ⊥
IsTask (i ∷ rest) failed = Unit {0}
IsTask (i ∷ rest) (running reader) = IsReader reader

pub record IsConsistent (c : Connection) : Type 0 where
  pub attached : (j : ℕ) → is_attached (c.channels j) ≡ is_live j c.live
  pub distinct : IsDistinct c.live
  pub indices : All IsU16 c.live
  pub task : IsTask c.live c.task
  pub bytes : All IsByte c.socket

-- Delivery changes queues only.
pub deliver-is_attached :
    (idx : ℕ) (payload : Bytes) (channels : Channels) (j : ℕ)
    → is_attached (deliver idx payload channels j) ≡ is_attached (channels j)
deliver-is_attached idx payload channels j = rw (deliver-eq idx payload channels j) (ground arith)

start_payload-is_attached :
    (idx n : ℕ) (channels : Channels) (j : ℕ)
    → is_attached ((start_payload idx n channels).channels j) ≡ is_attached (channels j)
unfolding start_payload
start_payload-is_attached idx zero channels j = deliver-is_attached idx [] channels j
start_payload-is_attached idx (suc n) channels j = refl

parse_header-is_attached :
    (header : Bytes) (channels : Channels) (j : ℕ)
    → is_attached ((parse_header header channels).channels j) ≡ is_attached (channels j)
unfolding parse_header
parse_header-is_attached [] channels j = refl
parse_header-is_attached (a ∷ []) channels j = refl
parse_header-is_attached (a ∷ b ∷ []) channels j = refl
parse_header-is_attached (a ∷ b ∷ c ∷ []) channels j = refl
parse_header-is_attached (a ∷ b ∷ c ∷ d ∷ []) channels j = refl
parse_header-is_attached (a ∷ b ∷ c ∷ d ∷ e ∷ []) channels j = refl
parse_header-is_attached (a ∷ b ∷ c ∷ d ∷ e ∷ f ∷ []) channels j = refl
parse_header-is_attached (a ∷ b ∷ c ∷ d ∷ e ∷ f ∷ g ∷ []) channels j = refl
parse_header-is_attached (a ∷ b ∷ c ∷ d ∷ e ∷ f ∷ g ∷ k ∷ []) channels j =
    start_payload-is_attached (flip_top (read_u16 e f)) (read_u16 g k) channels j
parse_header-is_attached (a ∷ b ∷ c ∷ d ∷ e ∷ f ∷ g ∷ k ∷ l ∷ rest) channels j = refl

pub dispatch-is_attached :
    (reader : Reader) (channels : Channels) (byte j : ℕ)
    → is_attached ((dispatch reader channels byte).channels j) ≡ is_attached (channels j)
unfolding dispatch
dispatch-is_attached (in_header header) channels byte j =
    parse_header-is_attached (header ++ byte ∷ []) channels j
dispatch-is_attached (in_payload idx zero payload) channels byte j =
    deliver-is_attached idx (payload ++ byte ∷ []) channels j
dispatch-is_attached (in_payload idx (suc missing) payload) channels byte j = refl

pub is_live-without :
    (i j : ℕ) (live : List ℕ)
    → IsDistinct live
    → is_live j (without i live) ≡ (if i == j then false else is_live j live)
is_live-without i j [] d = ground arith
is_live-without i j (k ∷ live) (n, d) = ground (arith, is_live-without i j live d)

without-IsDistinct : (i : ℕ) (live : List ℕ) → IsDistinct live → IsDistinct (without i live)
without-IsDistinct i [] d = tt
without-IsDistinct i (k ∷ live) (n, d) =
    ground (arith, without-IsDistinct i live d, is_live-without i k live d)

without-All : (P : ℕ → Type 0) (i : ℕ) (live : List ℕ) → All P live → All P (without i live)
without-All P i [] h = tt
without-All P i (j ∷ live) (h, hs) = elim (Bool-cases (i == j)) [
  | inl e ↦ rw e hs
  | inr e ↦ rw e (h, without-All P i live hs)
]

abbrev connection : Bytes → List ℕ → Task → Channels → Connection
connection socket live task channels = record {
  socket = socket;
  live = live;
  task = task;
  channels = channels;
}

read_byte-IsConsistent :
    (socket : Bytes) (live : List ℕ) (task : Task) (channels : Channels)
    → IsConsistent (connection socket live task channels)
    → IsConsistent (read_byte (connection socket live task channels))
unfolding read_byte
read_byte-IsConsistent socket live stopped channels i = i
read_byte-IsConsistent socket live failed channels i = i
read_byte-IsConsistent [] live (running reader) channels i = i
read_byte-IsConsistent (byte ∷ rest) [] (running reader) channels i = absurd i.task
read_byte-IsConsistent (byte ∷ rest) (idx ∷ live) (running reader) channels i = record {
  attached = λ j. dispatch-is_attached reader channels byte j ∙ i.attached j;
  distinct = i.distinct;
  indices = i.indices;
  task = dispatch-IsReader reader channels byte i.task i.bytes.0;
  bytes = i.bytes.1;
}

end_of_stream-IsConsistent :
    (socket : Bytes) (live : List ℕ) (task : Task) (channels : Channels)
    → IsConsistent (connection socket live task channels)
    → IsConsistent (end_of_stream (connection socket live task channels))
unfolding end_of_stream
end_of_stream-IsConsistent socket live stopped channels i = i
end_of_stream-IsConsistent socket live failed channels i = i
end_of_stream-IsConsistent (byte ∷ rest) live (running reader) channels i = i
end_of_stream-IsConsistent [] [] (running reader) channels i = absurd i.task
end_of_stream-IsConsistent [] (idx ∷ live) (running reader) channels i = record {
  attached = i.attached;
  distinct = i.distinct;
  indices = i.indices;
  task = tt;
  bytes = tt;
}

register-is_attached :
    (idx : ℕ) (live : List ℕ) (channels : Channels) (j : ℕ)
    → is_attached (channels j) ≡ is_live j live
    → is_attached (register idx channels j) ≡ is_live j (idx ∷ live)
unfolding register
register-is_attached idx live channels j e = ground (arith, e)

open_channel-IsConsistent :
    (idx : ℕ) (socket : Bytes) (live : List ℕ) (task : Task) (channels : Channels)
    → IsU16 idx
    → is_live idx live ≡ false
    → IsConsistent (connection socket live task channels)
    → IsConsistent (open_channel idx (connection socket live task channels))
unfolding open_channel run_demux
open_channel-IsConsistent idx socket [] task channels h n i = record {
  attached = λ j. register-is_attached idx [] channels j (i.attached j);
  distinct = (refl, tt);
  indices = (h, tt);
  task = (omega arith, tt);
  bytes = i.bytes;
}
open_channel-IsConsistent idx socket (k ∷ live) stopped channels h n i = absurd i.task
open_channel-IsConsistent idx socket (k ∷ live) failed channels h n i = record {
  attached = λ j. register-is_attached idx (k ∷ live) channels j (i.attached j);
  distinct = (n, i.distinct);
  indices = (h, i.indices);
  task = tt;
  bytes = i.bytes;
}
open_channel-IsConsistent idx socket (k ∷ live) (running reader) channels h n i = record {
  attached = λ j. register-is_attached idx (k ∷ live) channels j (i.attached j);
  distinct = (n, i.distinct);
  indices = (h, i.indices);
  task = i.task;
  bytes = i.bytes;
}

after_drop-IsTask :
    (live rest : List ℕ) (task : Task)
    → IsTask live task
    → live ≢ []
    → IsTask rest (after_drop rest task)
after_drop-IsTask live [] task h n = tt
after_drop-IsTask [] (k ∷ rest) task h n = absurd (n refl)
after_drop-IsTask (i ∷ live) (k ∷ rest) stopped h n = absurd h
after_drop-IsTask (i ∷ live) (k ∷ rest) failed h n = tt
after_drop-IsTask (i ∷ live) (k ∷ rest) (running reader) h n = h

drop_channel-IsConsistent :
    (idx : ℕ) (c : Connection)
    → is_live idx c.live ≡ true
    → IsConsistent c
    → IsConsistent (drop_channel idx c)
unfolding drop_channel unregister
drop_channel-IsConsistent idx c l i = record {
  attached = λ j. rw (is_live-without idx j c.live i.distinct) (ground (arith, i.attached j));
  distinct = without-IsDistinct idx c.live i.distinct;
  indices = without-All IsU16 idx c.live i.indices;
  task =
      after_drop-IsTask c.live (without idx c.live) c.task i.task (λ e. cc (l, ap (is_live idx) e));
  bytes = i.bytes;
}

-- What was received was the first of its queue.
pub recv-received :
    (idx : ℕ) (channels : Channels) (payload : Bytes) (taken : Channels)
    → recv idx channels ≡ received payload taken
    → (queue : List Bytes) × (channels idx ≡ some (payload ∷ queue))
      × (taken ≡ update channels idx (some queue))
unfolding recv
recv-received idx channels payload taken e = go (channels idx) refl e
  where
    go :
        (q : Option (List Bytes))
        → channels idx ≡ q
        → take_oldest idx channels q ≡ received payload taken
        → (queue : List Bytes) × (channels idx ≡ some (payload ∷ queue))
          × (taken ≡ update channels idx (some queue))
    go none p h = cc
    go (some []) p h = cc
    go (some (x ∷ queue)) p h = (queue, cc, cc)

pub recv-is_attached :
    (idx : ℕ) (channels : Channels) (payload : Bytes) (taken : Channels) (j : ℕ)
    → recv idx channels ≡ received payload taken
    → is_attached (taken j) ≡ is_attached (channels j)
recv-is_attached idx channels payload taken j e =
    let (queue, p, q) = recv-received idx channels payload taken e in
    rw q (elim (Bool-cases (idx == j)) [
      | inl h ↦ rw (h, ← (==_iff idx j).0 h, p) refl
      | inr h ↦ rw h refl
    ])

-- Every step keeps a connection consistent.
pub Step-IsConsistent : {c d : Connection} → Step c d → IsConsistent c → IsConsistent d
Step-IsConsistent (arrives c piece h) i = record {
  attached = i.attached;
  distinct = i.distinct;
  indices = i.indices;
  task = i.task;
  bytes = All-append IsByte c.socket piece i.bytes h;
}
Step-IsConsistent (reads c) i = read_byte-IsConsistent c.socket c.live c.task c.channels i
Step-IsConsistent (ends c) i = end_of_stream-IsConsistent c.socket c.live c.task c.channels i
Step-IsConsistent (opens c idx h n) i =
    open_channel-IsConsistent idx c.socket c.live c.task c.channels h n i
Step-IsConsistent (drops c idx l) i = drop_channel-IsConsistent idx c l i
Step-IsConsistent (takes c idx payload channels l e) i = record {
  attached = λ j. recv-is_attached idx c.channels payload channels j e ∙ i.attached j;
  distinct = i.distinct;
  indices = i.indices;
  task = i.task;
  bytes = i.bytes;
}

new-IsConsistent : IsConsistent new
unfolding new
new-IsConsistent = record {
  attached = λ j. refl;
  distinct = tt;
  indices = tt;
  task = tt;
  bytes = tt;
}

Reach-from : {c d : Connection} → IsConsistent c → Reach c d → IsConsistent d
Reach-from h here = h
Reach-from h (next r s) = Step-IsConsistent s (Reach-from h r)

-- Whatever happens to a new connection: a channel has a queue exactly while it lives, no two live
-- channels have one index, there is a task exactly while a channel lives, and the header it reads is
-- shorter than 8 bytes, or the payload that it reads is shorter than its length, which is below 64 KiB.
pub Reach-IsConsistent : {c : Connection} → Reach new c → IsConsistent c
Reach-IsConsistent r = Reach-from new-IsConsistent r
