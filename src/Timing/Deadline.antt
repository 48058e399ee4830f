-- ===== src/Timing/Deadline.antt =====
-- The test of the deadline of a session in CHECK_EVENTS_TIMING2.
use esq.Base.{
  ℕ, ◌+◌, ◌*◌, ◌<◌, ◌≤◌, ◌≡◌, ◌⊎◌, refl, inl, inr, Bool, true, false, ℤ, pos, arith, ltb, ◌==◌, ◌^◌,
  sym, ◌∙◌, ltb_ℤ, eqb_ℤ, add_int, add_int_fits, if◌then◌else◌, Bool-cases,
}
use esq.Timing.{Worker}

-- `now > start + timeout`, where all are of type `int`.
abbrev pub later_than : ℤ → ℤ → ℤ → Bool
later_than now start timeout = ltb_ℤ (add_int start timeout) now

-- `now == start + timeout`
abbrev pub same_time : ℤ → ℤ → ℤ → Bool
same_time now start timeout = eqb_ℤ now (add_int start timeout)

-- Whether the macro notifies the session `p`.
unfoldable pub deadline_passed : ℤ → ℤ → Worker → ℕ → Bool
unfolding add_int
deadline_passed now_sec now_ms w p =
    if later_than now_sec (w.wind_up_s p) (w.timeouts p)
    then true
    else if same_time now_sec (w.wind_up_s p) (w.timeouts p)
    then later_than now_ms (w.wind_up_ms p) (w.timeoutms p)
    else false

-- A time in microseconds.
abbrev pub micros : ℕ → ℕ → ℕ
micros sec usec = sec * 1000000 + usec

passed_lem :
    (ws wm s ms now_sec now_us : ℕ)
    → ((if ltb (ws + s) now_sec
          then true
          else if now_sec == ws + s
          then ltb (wm + ms) now_us
          else false)
        ≡ true)
    → (ws + s < now_sec) ⊎ ((now_sec ≡ ws + s) × (wm + ms < now_us))
passed_lem ws wm s ms now_sec now_us h = elim (Bool-cases (ltb (ws + s) now_sec)) [
  | inl e ↦ inl (ground arith)
  | inr e ↦ elim (Bool-cases (now_sec == ws + s)) [
    | inl at ↦ inr (ground arith, ground (arith, rw (e, at) at h))
    | inr ne ↦ absurd (cc (rw (e, ne) at h))
  ]
]

passed_of :
    (ws wm s ms now_sec now_us : ℕ)
    → (ws + s < now_sec) ⊎ ((now_sec ≡ ws + s) × (wm + ms < now_us))
    → (if ltb (ws + s) now_sec
        then true
        else if now_sec == ws + s
        then ltb (wm + ms) now_us
        else false)
      ≡ true
passed_of ws wm s ms now_sec now_us (inl h) =
    let e : ltb (ws + s) now_sec ≡ true = ground arith in rw e refl
passed_of ws wm s ms now_sec now_us (inr (at, h)) =
    let e : ltb (ws + s) now_sec ≡ false = ground arith in
    let f : (now_sec == ws + s) ≡ true = ground arith in
    let g : ltb (wm + ms) now_us ≡ true = ground arith in rw (e, f, g) refl

module _ (w : Worker) (p now_sec now_us ws wm s ms : ℕ) (at_s : w.wind_up_s p ≡ pos ws)
    (at_ms : w.wind_up_ms p ≡ pos wm) (ts : w.timeouts p ≡ pos s) (tms : w.timeoutms p ≡ pos ms)
    (fits_s : ws + s < 2 ^ 31) (fits_ms : wm + ms < 2 ^ 31) where
  -- Where no sum overflows, the macro is the comparison of numbers.
  deadline_passed_fits : deadline_passed (pos now_sec) (pos now_us) w p ≡ (
      if ltb (ws + s) now_sec
      then true
      else if now_sec == ws + s
      then ltb (wm + ms) now_us
      else false)
  unfolding deadline_passed
  deadline_passed_fits =
      rw (at_s, at_ms, ts, tms, add_int_fits ws s fits_s, add_int_fits wm ms fits_ms) refl

  earlier :
      (a : ℕ)
      → a < micros now_sec now_us
      → a ≡ micros ws wm + s * 1000000 + ms
      → now_us < 1000000
      → (ws + s < now_sec) ⊎ ((now_sec ≡ ws + s) × (wm + ms < now_us))
  earlier a h e c = elim (Bool-cases (ltb (ws + s) now_sec)) [
    | inl x ↦ inl (ground arith)
    | inr x ↦ let no_later : now_sec ≤ ws + s = ground arith in inr (omega arith, omega arith)
  ]

  -- The wind-up time of a session is in seconds and microseconds, as `gettimeofday` gives it, its
  -- timeout is not negative, and the sums of its time and its timeout fit in an int. The macro
  -- notifies the session only when more time has passed since then than the seconds of its timeout,
  -- and does so as soon as more has passed than these seconds and as many microseconds as the
  -- timeout has milliseconds.
  pub deadline_passed_at :
      wm < 1000000
      → now_us < 1000000
      → ((deadline_passed (pos now_sec) (pos now_us) w p ≡ true)
          → micros ws wm + s * 1000000 < micros now_sec now_us)
        × (micros ws wm + s * 1000000 + ms < micros now_sec now_us
            → deadline_passed (pos now_sec) (pos now_us) w p ≡ true)
  deadline_passed_at b c = (
    (λ h. elim (passed_lem ws wm s ms now_sec now_us (sym deadline_passed_fits ∙ h)) [
      | inl x ↦ omega arith
      | inr (x, y) ↦ omega arith
    ]),
    λ h. deadline_passed_fits ∙ passed_of ws wm s ms now_sec now_us (earlier _ h refl c),
  )
