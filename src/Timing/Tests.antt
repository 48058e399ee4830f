-- ===== src/Timing/Tests.antt =====
-- A session with a timeout of 50 milliseconds joins a worker, and the theorems of the siblings there.
use esq.Timing.Notified.{esq_session_join_timing_list-deadline_passed}
use esq.Timing.Deadline.{deadline_passed, micros, deadline_passed_at}
use esq.Base.{
  sym, Bool, add_int, ◌∙◌, ◌++◌, ◌==◌, if◌then◌else◌, ℕ, ◌+◌, ◌*◌, ◌<◌, ◌≡◌, refl, true, false,
  Option, some, List, [], ◌∷◌, pos, negsuc, arith,
}
use esq.Chain.{has}
use esq.DoubleList.{IsLinked}
use esq.Timing.Left.{replaced, esq_session_left_timing_list, esq_session_left_timing_list-IsTiming}
use esq.Timing.{
  longer_than_10s, from_1s_to_10s, from_100ms_to_1s, no_time, number, links, TimingList,
  from_0ms_to_100ms, Worker, list_of, esq_session_join_timing_list,
  esq_session_update_polling_interval,
}
use esq.Timing.Join.{
  IsTiming, joined, interval_of, EndsBy, esq_session_join_timing_list-IsTiming,
  esq_session_update_polling_interval-EndsBy,
}

abbrev idle : Worker
idle = record {
  prev = λ _. 0;
  next = λ _. 0;
  timeouts = λ _. pos 0;
  timeoutms = λ _. pos 50;
  wind_up_s = λ _. pos 0;
  wind_up_ms = λ _. pos 0;
  head = λ _. 0;
  tail = λ _. 0;
  esq_os_event_wait_max = negsuc 0;
  stopping = false;
}

abbrev nobody : TimingList → List ℕ
nobody c = []

idle-IsTiming : IsTiming idle nobody
idle-IsTiming = record { linked = λ c. ((refl, refl), tt); apart = λ c d a h k. absurd (cc h) }

abbrev now : Option (ℕ × ℕ)
now = some (1000, 999999)

esq_session_join_timing_list-IsTiming_example :
    (w' : Worker) × (esq_session_join_timing_list now 7 (some idle) ≡ some w')
    × IsTiming w' (joined (list_of (pos 0) (pos 50)) 7 nobody)
esq_session_join_timing_list-IsTiming_example =
    esq_session_join_timing_list-IsTiming now 7 idle nobody idle-IsTiming (omega arith) (λ d. refl)

abbrev lists : TimingList → List ℕ
lists = joined (list_of (pos 0) (pos 50)) 7 nobody

the_list : lists from_0ms_to_100ms ≡ 7 ∷ []
unfolding list_of
the_list = refl

after_join :
    (w' : Worker) × (esq_session_join_timing_list now 7 (some idle) ≡ some w') × IsTiming w' lists
after_join =
    esq_session_join_timing_list-IsTiming now 7 idle nobody idle-IsTiming (omega arith) (λ d. refl)

abbrev busy : Worker
busy = after_join.0

esq_session_update_polling_interval-EndsBy_example :
    EndsBy
      (esq_session_update_polling_interval busy).esq_os_event_wait_max
      (interval_of from_0ms_to_100ms)
esq_session_update_polling_interval-EndsBy_example =
    esq_session_update_polling_interval-EndsBy busy lists from_0ms_to_100ms 7 [] after_join.2
      the_list

-- A timeout of 2 seconds and 50 milliseconds is over after 2 seconds and 51 microseconds.
abbrev slow : Worker
slow = record idle { timeouts = λ _. pos 2; wind_up_s = λ _. pos 1000; wind_up_ms = λ _. pos 7 }

deadline_passed_at_example :
    ((deadline_passed (pos 1002) (pos 58) slow 7 ≡ true)
      → micros 1000 7 + 2 * 1000000 < micros 1002 58)
    × (micros 1000 7 + 2 * 1000000 + 50 < micros 1002 58
        → deadline_passed (pos 1002) (pos 58) slow 7 ≡ true)
deadline_passed_at_example =
    deadline_passed_at slow 7 1002 58 1000 7 2 50 refl refl refl refl (omega arith) (omega arith)
      (omega arith) (omega arith)

esq_session_join_timing_list-deadline_passed_example :
    (w' : Worker) × (esq_session_join_timing_list (some (1000, 7)) 7 (some slow) ≡ some w')
    × ((deadline_passed (pos 1002) (pos 58) w' 7 ≡ true)
        → micros 1000 7 + 2 * 1000000 < micros 1002 58)
    × (micros 1000 7 + 2 * 1000000 + 50 < micros 1002 58
        → deadline_passed (pos 1002) (pos 58) w' 7 ≡ true)
esq_session_join_timing_list-deadline_passed_example =
    esq_session_join_timing_list-deadline_passed slow 7 1000 7 1002 58 2 50 refl refl (omega arith)
      (omega arith) (omega arith) (omega arith)

-- A session that may wait for INT_MAX seconds is notified one second after it was wound up, since
-- the sum wraps around.
abbrev patient : Bool
patient =
    deadline_passed (pos 1001) (pos 0)
      (record idle { timeouts = λ _. pos 2147483647; wind_up_s = λ _. pos 1000 }) 7

patient_passed : patient ≡ true
unfolding deadline_passed add_int
patient_passed = refl

-- Session 7 stands in the list of its timeout.
abbrev seated : Worker
seated = record idle {
  head = λ c. if number c == 3 then 7 else 0;
  tail = λ c. if number c == 3 then 7 else 0;
}

abbrev seats : TimingList → List ℕ
seats c = if number c == 3 then 7 ∷ [] else []

seated-IsTiming : IsTiming seated seats
seated-IsTiming = record { linked = linked; apart = λ c d a h k. at_3 c a h ∙ sym (at_3 d a k) }
  where
    linked : (c : TimingList) → IsLinked (links seated c) (seats c)
    linked longer_than_10s = ((refl, refl), tt)
    linked from_1s_to_10s = ((refl, refl), tt)
    linked from_100ms_to_1s = ((refl, refl), tt)
    linked from_0ms_to_100ms = ((refl, omega arith, refl, (refl, refl)), (refl, tt))
    linked no_time = ((refl, refl), tt)

    at_3 : (c : TimingList) (a : ℕ) → has a (seats c) ≡ true → number c ≡ 3
    at_3 longer_than_10s a h = absurd (cc h)
    at_3 from_1s_to_10s a h = absurd (cc h)
    at_3 from_100ms_to_1s a h = absurd (cc h)
    at_3 from_0ms_to_100ms a h = refl
    at_3 no_time a h = absurd (cc h)

seats_of_7 : seats (list_of (pos 0) (pos 50)) ≡ [] ++ (7 ∷ [])
unfolding list_of
seats_of_7 = refl

esq_session_left_timing_list-IsTiming_example :
    (w' : Worker) × (esq_session_left_timing_list 7 (some seated) ≡ some w')
    × IsTiming w' (replaced (list_of (pos 0) (pos 50)) ([] ++ []) seats)
esq_session_left_timing_list-IsTiming_example =
    esq_session_left_timing_list-IsTiming 7 seated seats [] [] seated-IsTiming seats_of_7
