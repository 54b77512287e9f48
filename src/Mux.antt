-- ===== src/Mux.antt =====
-- src/mux.rs: frames on the wire, the demultiplexing task, and channels.
-- The socket's bytes are a list, read one by one; `HashMap<u16, Sender>` is a function, and the queue
-- behind a sender is the list of the payloads that its receiver has not taken yet.
pub mod Frames
pub mod Delivery
pub mod Connection
pub mod Fifo
pub mod Connect
mod Examples
use rust_cardano_ouroboros_n.Prelude.{
  ℕ, zero, suc, ◌+◌, ◌-◌, ◌*◌, ◌/◌, ◌%◌, ◌^◌, Option, none, some, List, [], ◌∷◌, ◌++◌, length, take,
  ◌==◌, if◌then◌else◌,
}
use rust_cardano_ouroboros_n.Prelude.Words.{flip_top}
use rust_cardano_ouroboros_n.Prelude.Outcome.{Outcome, ok, panic}
use rust_cardano_ouroboros_n.Model.{Bytes}

-- `write_u16` and `write_u32`, and `NetworkEndian::read_u16`.
abbrev pub u16_bytes : ℕ → Bytes
u16_bytes n = (n / 256 % 256) ∷ (n % 256) ∷ []

abbrev pub u32_bytes : ℕ → Bytes
u32_bytes n = (n / 16777216 % 256) ∷ (n / 65536 % 256) ∷ (n / 256 % 256) ∷ (n % 256) ∷ []

abbrev pub read_u16 : ℕ → ℕ → ℕ
read_u16 high low = high * 256 + low

-- `Connection::send`: the bytes it puts on the wire, `micros` after it took the start time.
-- `write` says how many bytes of the payload the socket takes from one call of `write`.
unfoldable pub send : (Bytes → ℕ) → ℕ → ℕ → Bytes → Bytes
send write micros idx payload =
    u32_bytes (micros % 2 ^ 32)
    ++ (u16_bytes idx ++ (u16_bytes (length payload % 2 ^ 16) ++ take (write payload) payload))

-- A payload that was sent to a channel, with the time that its frame carries.
pub record Sent : Type 0 where
  pub micros : ℕ
  pub idx : ℕ
  pub payload : Bytes

-- The bytes of one send after the other.
unfoldable pub send_all : (Bytes → ℕ) → List Sent → Bytes
send_all write [] = []
send_all write (s ∷ sends) = send write s.micros s.idx s.payload ++ send_all write sends

abbrev pub Channels : Type 0
Channels = ℕ → Option (List Bytes)

abbrev pub update {ℓ} : {A : Type ℓ} → (ℕ → A) → ℕ → A → ℕ → A
update f i a j = if i == j then a else f j

-- `HashMap::insert` of a new sender, and `remove`.
unfoldable pub register : ℕ → Channels → Channels
register idx channels = update channels idx (some [])

unfoldable pub unregister : ℕ → Channels → Channels
unregister idx channels = update channels idx none

abbrev pub enqueue : Bytes → Option (List Bytes) → Option (List Bytes)
enqueue payload none = none
enqueue payload (some queue) = some (queue ++ payload ∷ [])

-- `channel.send(payload)` on an attached channel; else the payload is logged and lost.
unfoldable pub deliver : ℕ → Bytes → Channels → Channels
deliver idx payload channels = update channels idx (enqueue payload (channels idx))

-- Where the task is: in the 8 bytes of a header, or `missing + 1` bytes before a payload's end.
pub data Reader : Type 0 where
  in_header : Bytes → Reader
  in_payload : ℕ → ℕ → Bytes → Reader

-- The task's buffers and the channels that it shares with the connection.
pub record Demux : Type 0 where
  pub reader : Reader
  pub channels : Channels

abbrev pub idle : Channels → Demux
idle channels = record { reader = in_header []; channels = channels }

-- After a header: an empty payload is delivered at once.
pub start_payload : ℕ → ℕ → Channels → Demux
unfolding deliver
start_payload idx zero channels = idle (deliver idx [] channels)
start_payload idx (suc missing) channels = record {
  reader = in_payload idx missing [];
  channels = channels;
}

-- The header's eight bytes; the first four are a timestamp that is not used.
pub parse_header : Bytes → Channels → Demux
unfolding start_payload
parse_header (a ∷ b ∷ c ∷ d ∷ e ∷ f ∷ g ∷ h ∷ []) channels =
    start_payload (flip_top (read_u16 e f)) (read_u16 g h) channels
parse_header header channels = record { reader = in_header header; channels = channels }

-- One byte from the socket.
pub dispatch : Reader → Channels → ℕ → Demux
unfolding parse_header deliver
dispatch (in_header header) channels byte = parse_header (header ++ byte ∷ []) channels
dispatch (in_payload idx zero payload) channels byte =
    idle (deliver idx (payload ++ byte ∷ []) channels)
dispatch (in_payload idx (suc missing) payload) channels byte = record {
  reader = in_payload idx missing (payload ++ byte ∷ []);
  channels = channels;
}

unfoldable pub feed : Demux → Bytes → Demux
unfolding dispatch
feed demux [] = demux
feed demux (byte ∷ rest) = feed (dispatch demux.reader demux.channels byte) rest

-- `Connection::recv` on a receiver: the oldest payload, if there is one yet. Without a sender, the
-- receiver's `recv` gives `None`, and `unwrap` panics.
pub data Received : Type 0 where
  waiting panicked : Received
  received : Bytes → Channels → Received

abbrev take_oldest : ℕ → Channels → Option (List Bytes) → Received
take_oldest idx channels (some (payload ∷ queue)) =
    received payload (update channels idx (some queue))
take_oldest idx channels (some []) = waiting
take_oldest idx channels none = panicked

unfoldable pub recv : ℕ → Channels → Received
recv idx channels = take_oldest idx channels (channels idx)
