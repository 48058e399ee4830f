-- ===== src/Timing/Join.antt =====
-- The timing lists after a session has joined.
use esq.Base.{
  ℕ, ◌≤◌, ◌≡◌, ◌≢◌, ◌⊎◌, refl, sym, ap, subst, ◌∙◌, inl, inr, Bool, true, false, Option, none, some,
  List, [], ◌∷◌, ℤ, pos, negsuc, arith, ◌==◌, if◌then◌else◌, Bool-cases,
}
use esq.Chain.{null, has}
use esq.DoubleList.{
  Links, IsLinked, double_ll_join_head, double_ll_join_head-IsLinked, double_ll_join_head_other,
}
use esq.Timing.{
  TimingList, longer_than_10s, from_1s_to_10s, from_100ms_to_1s, from_0ms_to_100ms, no_time, number,
  Worker, list_of, links, join_list, record_wind_up_time, esq_session_join_timing_list,
  suggested_time_interval, esq_session_update_polling_interval,
}

-- The timing lists of a worker hold these sessions, each session in one list at most.
pub record IsTiming (w : Worker) (lists : TimingList → List ℕ) : Type 0 where
  pub linked : (c : TimingList) → IsLinked (links w c) (lists c)
  pub apart :
      (c d : TimingList) (a : ℕ)
      → has a (lists c) ≡ true
      → has a (lists d) ≡ true
      → number c ≡ number d

-- The lists with a session in front of one of them.
abbrev pub joined : TimingList → ℕ → (TimingList → List ℕ) → TimingList → List ℕ
joined c session lists d = if number d == number c then session ∷ lists d else lists d

with_number : ℕ → TimingList
with_number n =
    if n == 0
    then longer_than_10s
    else if n == 1
    then from_1s_to_10s
    else if n == 2
    then from_100ms_to_1s
    else if n == 3
    then from_0ms_to_100ms
    else no_time

with_number-number : (c : TimingList) → with_number (number c) ≡ c
unfolding with_number
with_number-number longer_than_10s = refl
with_number-number from_1s_to_10s = refl
with_number-number from_100ms_to_1s = refl
with_number-number from_0ms_to_100ms = refl
with_number-number no_time = refl

pub number-injective : (c d : TimingList) → number c ≡ number d → c ≡ d
number-injective c d e = sym (with_number-number c) ∙ ap with_number e ∙ with_number-number d

module _ (w : Worker) (lists : TimingList → List ℕ) (c : TimingList) (session : ℕ)
    (timing : IsTiming w lists) (not_null : session ≢ null)
    (new : (d : TimingList) → has session (lists d) ≡ false) where
  head_apart :
      (xs : List ℕ) (d : TimingList)
      → lists c ≡ xs
      → IsLinked (links w c) xs
      → (number d == number c) ≡ false
      → w.head c ≢ null
      → has (w.head c) (lists d) ≡ false
  head_apart [] d e ((z, _), _) ne full = absurd (full z)
  head_apart (x ∷ xs) d e ((h, _, _, _), _) ne full = elim (Bool-cases (has (w.head c) (lists d))) [
    | inr out ↦ out
    | inl inside ↦
        let here : has (w.head c) (lists c) ≡ true = rw (e, h) (ground arith) in
        let same : number c ≡ number d = timing.apart c d (w.head c) here inside in
        absurd (ground arith)
  ]

  join_list-IsLinked :
      (d : TimingList) → IsLinked (links (join_list c session w) d) (joined c session lists d)
  unfolding join_list
  join_list-IsLinked d =
      by_case (number d == number c) (λ e. number-injective d c (ground arith))
        (λ e. head_apart (lists c) d refl (timing.linked c) e)
    where
      l : Links
      l = double_ll_join_head (links w c) session

      ends : Bool → Links
      ends t = record {
        prev = l.prev;
        next = l.next;
        head = if t then l.head else w.head d;
        tail = if t then l.tail else w.tail d;
      }

      by_case :
          (t : Bool)
          → (t ≡ true → d ≡ c)
          → (t ≡ false → w.head c ≢ null → has (w.head c) (lists d) ≡ false)
          → IsLinked (ends t) (if t then session ∷ lists d else lists d)
      by_case true same other =
          subst (λ k. IsLinked l (session ∷ lists k)) (sym (same refl))
            (double_ll_join_head-IsLinked (links w c) session (lists c) not_null (new c)
              (timing.linked c))
      by_case false same other = (
        double_ll_join_head_other (links w c) session null (w.head d) (w.tail d) (lists d) (new d)
            (other refl) (timing.linked d).0,
        (timing.linked d).1,
      )

  joined_member :
      (d : TimingList) (a : ℕ)
      → has a (joined c session lists d) ≡ true
      → ((a ≡ session) × (number d ≡ number c)) ⊎ (has a (lists d) ≡ true)
  joined_member d a h = elim (Bool-cases (number d == number c)) [
    | inr other ↦ inr (rw other at h)
    | inl same ↦
        let h1 = rw same at h in
        elim (Bool-cases (a == session)) [
          | inl at ↦ inl (ground arith, ground arith)
          | inr ne ↦ inr (rw ne at h1)
        ]
  ]

  joined-apart :
      (d e : TimingList) (a : ℕ)
      → has a (joined c session lists d) ≡ true
      → has a (joined c session lists e) ≡ true
      → number d ≡ number e
  joined-apart d e a hd he = both (joined_member d a hd) (joined_member e a he)
    where
      both :
          ((a ≡ session) × (number d ≡ number c)) ⊎ (has a (lists d) ≡ true)
          → ((a ≡ session) × (number e ≡ number c)) ⊎ (has a (lists e) ≡ true)
          → number d ≡ number e
      both (inl (_, nd)) (inl (_, ne)) = nd ∙ sym ne
      both (inl (at, _)) (inr h) = absurd (cc (sym (new e) ∙ rw at at h))
      both (inr h) (inl (at, _)) = absurd (cc (sym (new d) ∙ rw at at h))
      both (inr h) (inr k) = timing.apart d e a h k

  join_list-IsTiming : IsTiming (join_list c session w) (joined c session lists)
  join_list-IsTiming = record { linked = join_list-IsLinked; apart = joined-apart }

-- Recording the time leaves the lists alone.
record_wind_up_time-IsTiming :
    (now : Option (ℕ × ℕ)) (session : ℕ) (w : Worker) (lists : TimingList → List ℕ)
    → IsTiming w lists
    → IsTiming (record_wind_up_time now session w) lists
unfolding record_wind_up_time
record_wind_up_time-IsTiming none session w lists t = record { linked = t.linked; apart = t.apart }
record_wind_up_time-IsTiming (some (sec, usec)) session w lists t = record {
  linked = t.linked;
  apart = t.apart;
}

-- `esq_session_join_timing_list` puts a session that is in no timing list in front of the list that
-- its timeout names, and leaves the other lists as they are.
pub esq_session_join_timing_list-IsTiming :
    (now : Option (ℕ × ℕ)) (session : ℕ) (w : Worker) (lists : TimingList → List ℕ)
    → IsTiming w lists
    → session ≢ null
    → ((d : TimingList) → has session (lists d) ≡ false)
    → (w' : Worker) × (esq_session_join_timing_list now session (some w) ≡ some w')
      × IsTiming w' (joined (list_of (w.timeouts session) (w.timeoutms session)) session lists)
unfolding esq_session_join_timing_list
esq_session_join_timing_list-IsTiming now session w lists timing not_null new = (
  _,
  refl,
  record_wind_up_time-IsTiming now session _ _ (
      join_list-IsTiming w lists (list_of (w.timeouts session) (w.timeoutms session)) session timing
        not_null new),
)

-- The longest wait that a list with sessions allows.
abbrev pub interval_of : TimingList → ℤ
interval_of from_0ms_to_100ms = pos 5
interval_of from_100ms_to_1s = pos 50
interval_of from_1s_to_10s = pos 500
interval_of longer_than_10s = pos 5000
interval_of no_time = negsuc 0

-- `a` is a wait that ends by the time that `b` ends; -1 is a wait without an end.
abbrev pub EndsBy : ℤ → ℤ → Type 0
EndsBy (pos a) (pos b) = a ≤ b
EndsBy (negsuc a) (pos b) = ⊥
EndsBy a (negsuc b) = Unit

-- After `esq_session_update_polling_interval` the worker waits no longer than any of its timing
-- lists with sessions allows.
pub esq_session_update_polling_interval-EndsBy :
    (w : Worker) (lists : TimingList → List ℕ) (c : TimingList) (x : ℕ) (xs : List ℕ)
    → IsTiming w lists
    → lists c ≡ x ∷ xs
    → EndsBy (esq_session_update_polling_interval w).esq_os_event_wait_max (interval_of c)
unfolding esq_session_update_polling_interval suggested_time_interval
esq_session_update_polling_interval-EndsBy w lists c x xs timing e =
    by_list c (head_ne c x xs e (timing.linked c))
  where
    head_ne :
        (c : TimingList) (x : ℕ) (xs : List ℕ)
        → lists c ≡ x ∷ xs
        → IsLinked (links w c) (lists c)
        → (w.head c == null) ≡ false
    head_ne c x xs e l = let (h, n, _, _) = (subst (IsLinked (links w c)) e l).0 in ground arith

    forever : (a : ℤ) → EndsBy a (negsuc 0)
    forever (pos a) = tt
    forever (negsuc a) = tt

    by_list :
        (c : TimingList)
        → (w.head c == null) ≡ false
        → EndsBy (suggested_time_interval w) (interval_of c)
    by_list no_time h = forever (suggested_time_interval w)
    by_list from_0ms_to_100ms h = rw h (omega arith)
    by_list from_100ms_to_1s h = elim (Bool-cases (w.head from_0ms_to_100ms == null)) [
      | inr busy ↦ rw busy (omega arith)
      | inl idle ↦ rw (idle, h) (omega arith)
    ]
    by_list from_1s_to_10s h = elim (Bool-cases (w.head from_0ms_to_100ms == null)) [
      | inr busy ↦ rw busy (omega arith)
      | inl idle ↦ rw idle (elim (Bool-cases (w.head from_100ms_to_1s == null)) [
        | inr busy ↦ rw busy (omega arith)
        | inl idle ↦ rw (idle, h) (omega arith)
      ])
    ]
    by_list longer_than_10s h = elim (Bool-cases (w.head from_0ms_to_100ms == null)) [
      | inr busy ↦ rw busy (omega arith)
      | inl idle ↦ rw idle (elim (Bool-cases (w.head from_100ms_to_1s == null)) [
        | inr busy ↦ rw busy (omega arith)
        | inl idle ↦ rw idle (elim (Bool-cases (w.head from_1s_to_10s == null)) [
          | inr busy ↦ rw busy (omega arith)
          | inl idle ↦ rw (idle, h) (omega arith)
        ])
      ])
    ]
