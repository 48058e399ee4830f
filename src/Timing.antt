-- ===== src/Timing.antt =====
-- session/timing.c: joining the timing lists of a worker, and the interval of its polling. Leaving
-- them is in Timing/Left, the test of the deadlines in Timing/Deadline, and what that test makes of
-- the time that joining stores in Timing/Notified.
pub mod Join
pub mod Deadline
pub mod Notified
pub mod Left
mod Tests
use esq.Base.{
  ℕ, ◌+◌, Bool, true, false, not, Option, none, some, ℤ, pos, negsuc, leb, ◌==◌, if◌then◌else◌, Mem,
  store, to_int,
}
use esq.Chain.{null}
use esq.DoubleList.{Links, double_ll_join_head}

-- The lists of `esq_worker_ctx_t` by the timeout of their sessions.
pub data TimingList : Type 0 where
  longer_than_10s from_1s_to_10s from_100ms_to_1s from_0ms_to_100ms no_time : TimingList

-- Numbers that tell them apart.
abbrev pub number : TimingList → ℕ
number longer_than_10s = 0
number from_1s_to_10s = 1
number from_100ms_to_1s = 2
number from_0ms_to_100ms = 3
number no_time = 4

-- The fields of the sessions at each address and of the worker that the functions use. `stopping`
-- is what `esq_stop_server_on_purpose` sets.
pub record Worker : Type 0 where
  pub prev : Mem
  pub next : Mem
  pub timeouts : ℕ → ℤ
  pub timeoutms : ℕ → ℤ
  pub wind_up_s : ℕ → ℤ
  pub wind_up_ms : ℕ → ℤ
  pub head : TimingList → ℕ
  pub tail : TimingList → ℕ
  pub esq_os_event_wait_max : ℤ
  pub stopping : Bool

abbrev pub at_least : ℕ → ℤ → Bool
at_least k (pos n) = leb k n
at_least k (negsuc n) = false

-- The tests of `s` and `ms`.
unfoldable pub list_of : ℤ → ℤ → TimingList
list_of s ms =
    if at_least 10 s
    then longer_than_10s
    else if at_least 1 s
    then from_1s_to_10s
    else if at_least 100 ms
    then from_100ms_to_1s
    else if at_least 1 ms
    then from_0ms_to_100ms
    else no_time

abbrev pub links : Worker → TimingList → Links
links w c = record { prev = w.prev; next = w.next; head = w.head c; tail = w.tail c }

-- One list joined, the others' ends as they are.
unfoldable pub join_list : TimingList → ℕ → Worker → Worker
unfolding double_ll_join_head
join_list c session w =
    let l = double_ll_join_head (links w c) session in
    record w {
      prev = l.prev;
      next = l.next;
      head = λ d. if number d == number c then l.head else w.head d;
      tail = λ d. if number d == number c then l.tail else w.tail d;
    }

-- RECORD_WIND_UP_TIME, where `gettimeofday` gives seconds and microseconds, or fails. The fields
-- are of type `int`, and the seconds are of a wider type.
unfoldable pub record_wind_up_time : Option (ℕ × ℕ) → ℕ → Worker → Worker
unfolding to_int
record_wind_up_time none session w = record w { stopping = true }
record_wind_up_time (some (sec, usec)) session w = record w {
  wind_up_s = λ p. if p == session then to_int (pos sec) else w.wind_up_s p;
  wind_up_ms = λ p. if p == session then to_int (pos usec) else w.wind_up_ms p;
}

-- `none` is a thread that has no worker context.
unfoldable pub esq_session_join_timing_list : Option (ℕ × ℕ) → ℕ → Option Worker → Option Worker
unfolding join_list record_wind_up_time list_of
esq_session_join_timing_list now session none = none
esq_session_join_timing_list now session (some w) = some (
    record_wind_up_time now session
      (join_list (list_of (w.timeouts session) (w.timeoutms session)) session w))

unfoldable pub suggested_time_interval : Worker → ℤ
suggested_time_interval w =
    if not (w.head from_0ms_to_100ms == null)
    then pos 5
    else if not (w.head from_100ms_to_1s == null)
    then pos 50
    else if not (w.head from_1s_to_10s == null)
    then pos 500
    else if not (w.head longer_than_10s == null)
    then pos 5000
    else negsuc 0

unfoldable pub esq_session_update_polling_interval : Worker → Worker
unfolding suggested_time_interval
esq_session_update_polling_interval w = record w {
  esq_os_event_wait_max = suggested_time_interval w;
}
