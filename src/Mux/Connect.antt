-- ===== src/Mux/Connect.antt =====
-- src/mux.rs: how a connection is made, and what its clock says.
-- Times are microseconds. What becomes of a request for a stream is a parameter, and so is tokio's
-- `timeout`, with what its documentation says of it.
pub mod Sample
use rust_cardano_ouroboros_n.Prelude.{ℕ, ◌+◌, ◌-◌, ◌*◌, ◌<◌, ◌≡◌, refl, Bool, if◌then◌else◌}
use rust_cardano_ouroboros_n.Mux.Connection.{Connection, new}

-- What becomes of a request: a stream or an error after some time, or nothing.
pub data Attempt : Type 0 where
  connects refuses : ℕ → Attempt
  hangs : Attempt

-- What a wait with a limit gives.
pub data Waited : Type 0 where
  stream refused elapsed : Waited

-- The result of a wait, and how long it took.
abbrev pub Timeout : Type 0
Timeout = ℕ → Attempt → Waited × ℕ

-- The future's own result if it is there before the limit, and `Elapsed` if it comes after it.
pub record IsTimeout (timeout : Timeout) : Type 0 where
  pub connects_in_time : (limit t : ℕ) → t < limit → timeout limit (connects t) ≡ (stream, t)
  pub refuses_in_time : (limit t : ℕ) → t < limit → timeout limit (refuses t) ≡ (refused, t)
  pub connects_late : (limit t : ℕ) → limit < t → timeout limit (connects t) ≡ (elapsed, limit)
  pub refuses_late : (limit t : ℕ) → limit < t → timeout limit (refuses t) ≡ (elapsed, limit)
  pub never : (limit : ℕ) → timeout limit hangs ≡ (elapsed, limit)

-- A request that gives no stream in time.
pub data NoStream (limit : ℕ) : Attempt → Type 0 where
  too_late : (t : ℕ) → limit < t → NoStream limit (connects t)
  is_refused : (t : ℕ) → t < limit → NoStream limit (refuses t)
  refused_late : (t : ℕ) → limit < t → NoStream limit (refuses t)
  never_answers : NoStream limit hangs

-- `Connection` with its `start_time`.
pub record Timed : Type 0 where
  pub start_time : ℕ
  pub connection : Connection

-- `Connection::new`, `from_tcp_stream` and `from_unix_stream`, at a time.
unfoldable pub from_stream : ℕ → Timed
from_stream now = record { start_time = now; connection = new }

-- `duration`.
unfoldable pub duration : Timed → ℕ → ℕ
duration c now = now - c.start_time

pub data Connected : Type 0 where
  made : Timed → Connected
  io_error : Connected

abbrev pub two_seconds : ℕ
two_seconds = 2 * 1000000

-- `stream.set_nodelay(true)?`, which the system may refuse, and the rest of `tcp_connect`.
abbrev pub after_tcp : Bool → ℕ → Waited × ℕ → Connected × ℕ
after_tcp nodelay now (stream, t) =
    ((if nodelay then made (from_stream (now + t)) else io_error), now + t)
after_tcp nodelay now (refused, t) = (io_error, now + t)
after_tcp nodelay now (elapsed, t) = (io_error, now + t)

abbrev pub after_unix : ℕ → Waited × ℕ → Connected × ℕ
after_unix now (stream, t) = (made (from_stream (now + t)), now + t)
after_unix now (refused, t) = (io_error, now + t)
after_unix now (elapsed, t) = (io_error, now + t)

module _ (timeout : Timeout) where
  -- `tcp_connect` at the time `now`: its result, and when it is there.
  unfoldable pub tcp_connect : Attempt → Bool → ℕ → Connected × ℕ
  tcp_connect attempt nodelay now = after_tcp nodelay now (timeout two_seconds attempt)

  unfoldable pub unix_connect : Attempt → ℕ → Connected × ℕ
  unix_connect attempt now = after_unix now (timeout two_seconds attempt)

  -- Without a stream in time, both give an error.
  pub NoStream-tcp_connect :
      (attempt : Attempt) (nodelay : Bool) (now : ℕ)
      → IsTimeout timeout
      → NoStream two_seconds attempt
      → (tcp_connect attempt nodelay now).0 ≡ io_error
  unfolding tcp_connect
  NoStream-tcp_connect _ nodelay now laws (too_late t lt) = rw (laws.connects_late two_seconds t lt)
  NoStream-tcp_connect _ nodelay now laws (is_refused t lt) =
      rw (laws.refuses_in_time two_seconds t lt)
  NoStream-tcp_connect _ nodelay now laws (refused_late t lt) =
      rw (laws.refuses_late two_seconds t lt)
  NoStream-tcp_connect _ nodelay now laws never_answers = rw (laws.never two_seconds)

  pub NoStream-unix_connect :
      (attempt : Attempt) (now : ℕ)
      → IsTimeout timeout
      → NoStream two_seconds attempt
      → (unix_connect attempt now).0 ≡ io_error
  unfolding unix_connect
  NoStream-unix_connect _ now laws (too_late t lt) = rw (laws.connects_late two_seconds t lt)
  NoStream-unix_connect _ now laws (is_refused t lt) = rw (laws.refuses_in_time two_seconds t lt)
  NoStream-unix_connect _ now laws (refused_late t lt) = rw (laws.refuses_late two_seconds t lt)
  NoStream-unix_connect _ now laws never_answers = rw (laws.never two_seconds)
