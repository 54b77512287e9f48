-- ===== src/Mux/Connection.antt =====
-- src/mux.rs: a connection with its channels, and the life of the demultiplexing task.
-- The socket's bytes that have arrived and are not read yet are a list. The `Arc<Demux>` is counted by
-- the list of the live `Channel`s, each of which holds one; a byte that the task reads is a step.
pub mod Bounds
pub mod Invariant
pub mod Handover
pub mod End
mod Examples
use rust_cardano_ouroboros_n.Prelude.{
  ℕ, Bool, true, false, Option, none, some, List, [], ◌∷◌, ◌++◌, ◌==◌, if◌then◌else◌, ◌≡◌, All, ◌<◌,
  zero, suc,
}
use rust_cardano_ouroboros_n.Prelude.Int.{IsU16}
use rust_cardano_ouroboros_n.Model.{Bytes}
use rust_cardano_ouroboros_n.Mux.{
  Channels, Reader, in_header, Demux, register, unregister, dispatch, Received, received, waiting,
  recv,
}

-- The task: there is none, it reads, or it has ended in a panic since the stream has ended.
pub data Task : Type 0 where
  stopped failed : Task
  running : Reader → Task

-- `Connection`: the read half of its socket, the live channels, the task and the senders.
pub record Connection : Type 0 where
  pub socket : Bytes
  pub live : List ℕ
  pub task : Task
  pub channels : Channels

-- `Connection::new`.
unfoldable pub new : Connection
new = record { socket = []; live = []; task = stopped; channels = λ idx. none }

-- `upgrade` finds the task while a channel lives; else a new one is spawned.
unfoldable pub run_demux : Connection → Connection
run_demux c = elim c.live [ [] ↦ record c { task = running (in_header []) } | idx ∷ rest ↦ c ]

-- `Connection::channel`.
unfoldable pub open_channel : ℕ → Connection → Connection
unfolding run_demux register
open_channel idx c =
    let d = run_demux (record c { channels = register idx c.channels }) in
    record d { live = idx ∷ d.live }

-- The list without one occurrence.
abbrev pub without : ℕ → List ℕ → List ℕ
without i [] = []
without i (j ∷ rest) = let later = without i rest in if i == j then rest else j ∷ later

-- The last channel takes the task with it: `abort`.
abbrev after_drop : List ℕ → Task → Task
after_drop [] task = stopped
after_drop (idx ∷ rest) task = task

-- `Drop` of a channel, and then of its fields.
unfoldable pub drop_channel : ℕ → Connection → Connection
unfolding unregister
drop_channel idx c =
    let live = without idx c.live in
    record c { live = live; task = after_drop live c.task; channels = unregister idx c.channels }

abbrev read_in : Task → Bytes → Connection → Connection
unfolding dispatch
read_in (running reader) (byte ∷ rest) c =
    let demux = dispatch reader c.channels byte in
    record c { socket = rest; task = running demux.reader; channels = demux.channels }
read_in _ _ c = c

-- The task reads a byte, if there is one.
unfoldable pub read_byte : Connection → Connection
unfolding dispatch
read_byte c = read_in c.task c.socket c

abbrev pub read_bytes : ℕ → Connection → Connection
read_bytes zero c = c
read_bytes (suc n) c = read_bytes n (read_byte c)

abbrev end_in : Task → Bytes → Connection → Connection
end_in (running reader) [] c = record c { task = failed }
end_in _ _ c = c

-- The other side has closed the stream: `read_exact(…).await.unwrap()` panics.
unfoldable pub end_of_stream : Connection → Connection
end_of_stream c = end_in c.task c.socket c

abbrev pub is_live : ℕ → List ℕ → Bool
is_live i [] = false
is_live i (j ∷ rest) = let later = is_live i rest in if i == j then true else later

-- What may happen next. A channel that lives is not opened again: it borrows the connection mutably.
pub data Step : Connection → Connection → Type 0 where
  arrives :
      (c : Connection) (piece : Bytes)
      → All (λ b. b < 256) piece
      → Step c (record c { socket = c.socket ++ piece })
  reads : (c : Connection) → Step c (read_byte c)
  ends : (c : Connection) → Step c (end_of_stream c)
  opens :
      (c : Connection) (idx : ℕ)
      → IsU16 idx
      → is_live idx c.live ≡ false
      → Step c (open_channel idx c)
  drops : (c : Connection) (idx : ℕ) → is_live idx c.live ≡ true → Step c (drop_channel idx c)
  takes :
      (c : Connection) (idx : ℕ) (payload : Bytes) (channels : Channels)
      → is_live idx c.live ≡ true
      → recv idx c.channels ≡ received payload channels
      → Step c (record c { channels = channels })

pub data Reach (c : Connection) : Connection → Type 0 where
  here : Reach c c
  next : {d e : Connection} → Reach c d → Step d e → Reach c e
