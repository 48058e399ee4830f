-- ===== src/Timing/Notified.antt =====
-- When a session is notified that has joined a timing list: the time that
-- `esq_session_join_timing_list` stores, and the test of CHECK_EVENTS_TIMING2 on it.
use esq.Base.{ℕ, ◌+◌, ◌*◌, ◌^◌, ◌<◌, ◌≡◌, refl, true, some, pos, to_int_fits, arith, ◌==◌}
use esq.Timing.{Worker, list_of, join_list, record_wind_up_time, esq_session_join_timing_list}
use esq.Timing.Deadline.{micros, deadline_passed, deadline_passed_at}

-- A session of which the timeout is not negative joins a timing list at a time that `gettimeofday`
-- gives in seconds and microseconds, and the sums of that time and its timeout fit in an int. Then
-- it is notified only when more time has passed since it joined than the seconds of its timeout,
-- and it is notified as soon as more has passed than these seconds and as many microseconds as the
-- timeout has milliseconds.
pub esq_session_join_timing_list-deadline_passed :
    (w : Worker) (p sec usec now_sec now_us s ms : ℕ)
    → w.timeouts p ≡ pos s
    → w.timeoutms p ≡ pos ms
    → sec + s < 2 ^ 31
    → usec + ms < 2 ^ 31
    → usec < 1000000
    → now_us < 1000000
    → (w' : Worker) × (esq_session_join_timing_list (some (sec, usec)) p (some w) ≡ some w')
      × ((deadline_passed (pos now_sec) (pos now_us) w' p ≡ true)
          → micros sec usec + s * 1000000 < micros now_sec now_us)
      × (micros sec usec + s * 1000000 + ms < micros now_sec now_us
          → deadline_passed (pos now_sec) (pos now_us) w' p ≡ true)
unfolding esq_session_join_timing_list record_wind_up_time join_list
esq_session_join_timing_list-deadline_passed w p sec usec now_sec now_us s ms ts tms fits_s fits_ms
      b c =
    let w' : Worker =
      record_wind_up_time (some (sec, usec)) p
        (join_list (list_of (w.timeouts p) (w.timeoutms p)) p w) in
    let here : (p == p) ≡ true = ground arith in
    let at_s : w'.wind_up_s p ≡ pos sec = rw here (to_int_fits sec (omega arith)) in
    let at_ms : w'.wind_up_ms p ≡ pos usec = rw here (to_int_fits usec (omega arith)) in
    let (only, soon) =
      deadline_passed_at w' p now_sec now_us sec usec s ms at_s at_ms ts tms fits_s fits_ms b c in
    (w', refl, only, soon)
