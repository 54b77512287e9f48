-- ===== src/Mux/Connect/Sample.antt =====
-- A wait with a limit, for concrete runs: a request that is answered at the limit itself is too late.
use rust_cardano_ouroboros_n.Prelude.{ℕ, ◌<◌, ◌≡◌, refl, Bool, ltb, lt→ltb, if◌then◌else◌, arith}
use rust_cardano_ouroboros_n.Mux.Connect.{
  connects, refuses, hangs, stream, refused, elapsed, Timeout, IsTimeout,
}

abbrev pub clock : Timeout
clock limit (connects t) = if ltb t limit then (stream, t) else (elapsed, limit)
clock limit (refuses t) = if ltb t limit then (refused, t) else (elapsed, limit)
clock limit hangs = (elapsed, limit)

late : (limit t : ℕ) → limit < t → ltb t limit ≡ Bool.false
late limit t h = ground arith

pub clock-IsTimeout : IsTimeout clock
clock-IsTimeout = record {
  connects_in_time = λ limit t h. rw (lt→ltb t limit h);
  refuses_in_time = λ limit t h. rw (lt→ltb t limit h);
  connects_late = λ limit t h. rw (late limit t h);
  refuses_late = λ limit t h. rw (late limit t h);
  never = λ limit. refl;
}
