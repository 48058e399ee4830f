-- ===== src/Timing/Left.antt =====
-- session/timing.c: a session leaves its timing list.
use esq.Base.{
  ℕ, ◌≡◌, ◌≢◌, ◌⊎◌, refl, sym, subst, inl, inr, Bool, true, false, not, ◌||◌, Option, none, some,
  List, ◌∷◌, ◌++◌, ℤ, pos, negsuc, arith, ◌==◌, if◌then◌else◌, Bool-cases,
}
use esq.Chain.{null, has, has-append}
use esq.DoubleList.{Links, IsLinked}
use esq.DoubleList.Left.{double_ll_left, double_ll_left-IsLinked}
use esq.DoubleList.Others.{double_ll_left_other, neighbours}
use esq.Timing.{TimingList, number, Worker, list_of, links, esq_session_join_timing_list}
use esq.Timing.Join.{IsTiming, number-injective}

-- One list left, the others' ends as they are.
unfoldable pub left_list : TimingList → ℕ → Worker → Worker
unfolding double_ll_left
left_list c session w =
    let l = double_ll_left (links w c) session in
    record w {
      prev = l.prev;
      next = l.next;
      head = λ d. if number d == number c then l.head else w.head d;
      tail = λ d. if number d == number c then l.tail else w.tail d;
    }

-- `none` is a thread that has no worker context.
unfoldable pub esq_session_left_timing_list : ℕ → Option Worker → Option Worker
unfolding left_list list_of
esq_session_left_timing_list session none = none
esq_session_left_timing_list session (some w) =
    some (left_list (list_of (w.timeouts session) (w.timeoutms session)) session w)

abbrev pub is_zero : ℤ → Bool
is_zero (pos n) = n == 0
is_zero (negsuc n) = false

-- The timeouts of a session set to 0.
abbrev pub no_timeout : ℕ → Worker → Worker
no_timeout session w = record w {
  timeouts = λ q. if q == session then pos 0 else w.timeouts q;
  timeoutms = λ q. if q == session then pos 0 else w.timeoutms q;
}

unfoldable pub esq_session_change_to_no_timing_list : Option (ℕ × ℕ) → ℕ → Worker → Option Worker
unfolding esq_session_left_timing_list esq_session_join_timing_list
esq_session_change_to_no_timing_list now session w =
    if not (is_zero (w.timeouts session)) || not (is_zero (w.timeoutms session))
    then elim (esq_session_left_timing_list session (some w)) [
      | none ↦ none
      | some k ↦ esq_session_join_timing_list now session (some (no_timeout session k))
    ]
    else some w

-- The lists with other sessions in one of them.
abbrev pub replaced : TimingList → List ℕ → (TimingList → List ℕ) → TimingList → List ℕ
replaced c xs lists d = if number d == number c then xs else lists d

module _ (w : Worker) (lists : TimingList → List ℕ) (c : TimingList) (session : ℕ)
    (pre post : List ℕ) (timing : IsTiming w lists)
    (stands : lists c ≡ pre ++ (session ∷ post)) where
  own : IsLinked (links w c) (pre ++ (session ∷ post))
  own = subst (IsLinked (links w c)) stands (timing.linked c)

  -- A neighbour is in no other list.
  neighbour_apart :
      (q : ℕ) (d : TimingList)
      → (q ≡ null) ⊎ (has q (pre ++ (session ∷ post)) ≡ true)
      → (number d == number c) ≡ false
      → q ≢ null
      → has q (lists d) ≡ false
  neighbour_apart q d (inl z) ne full = absurd (full z)
  neighbour_apart q d (inr h) ne full = elim (Bool-cases (has q (lists d))) [
    | inr out ↦ out
    | inl inside ↦
        let here : has q (lists c) ≡ true = subst (λ xs. has q xs ≡ true) (sym stands) h in
        let same = timing.apart c d q here inside in absurd (ground arith)
  ]

  left_list-IsLinked :
      (d : TimingList)
      → IsLinked (links (left_list c session w) d) (replaced c (pre ++ post) lists d)
  unfolding left_list
  left_list-IsLinked d =
      by_case (number d == number c) (λ e. number-injective d c (ground arith)) λ e. e
    where
      l : Links
      l = double_ll_left (links w c) session

      ends : Bool → Links
      ends t = record {
        prev = l.prev;
        next = l.next;
        head = if t then l.head else w.head d;
        tail = if t then l.tail else w.tail d;
      }

      by_case :
          (t : Bool)
          → (t ≡ true → d ≡ c)
          → (t ≡ false → (number d == number c) ≡ false)
          → IsLinked (ends t) (if t then pre ++ post else lists d)
      by_case true same other = double_ll_left-IsLinked (links w c) session pre post own
      by_case false same other =
          let (before, behind) = neighbours (links w c) session pre post own in
          (
            double_ll_left_other (links w c) session null (w.head d) (w.tail d) (lists d)
                (neighbour_apart (w.prev session) d before (other refl))
                (neighbour_apart (w.next session) d behind (other refl)) (timing.linked d).0,
            (timing.linked d).1,
          )

  kept_member :
      (d : TimingList) (a : ℕ)
      → has a (replaced c (pre ++ post) lists d) ≡ true
      → has a (lists d) ≡ true
  kept_member d a h = elim (Bool-cases (number d == number c)) [
    | inr other ↦ rw other at h
    | inl same ↦
        let k : has a (pre ++ post) ≡ true = rw same at h in
        let eq : d ≡ c = number-injective d c (ground arith) in
        subst (λ e. has a (lists e) ≡ true) (sym eq)
          (subst (λ xs. has a xs ≡ true) (sym stands)
            (ground (arith, k, has-append a pre post, has-append a pre (session ∷ post))))
  ]

  left_list-IsTiming : IsTiming (left_list c session w) (replaced c (pre ++ post) lists)
  left_list-IsTiming = record {
    linked = left_list-IsLinked;
    apart = λ d e a h k. timing.apart d e a (kept_member d a h) (kept_member e a k);
  }

-- A session that stands in the timing list that its timeout names leaves it by
-- `esq_session_left_timing_list`: the others in the list keep their order, and the other lists are as
-- they were.
pub esq_session_left_timing_list-IsTiming :
    (session : ℕ) (w : Worker) (lists : TimingList → List ℕ) (pre post : List ℕ)
    → IsTiming w lists
    → lists (list_of (w.timeouts session) (w.timeoutms session)) ≡ pre ++ (session ∷ post)
    → (w' : Worker) × (esq_session_left_timing_list session (some w) ≡ some w')
      × IsTiming w'
          (replaced (list_of (w.timeouts session) (w.timeoutms session)) (pre ++ post) lists)
unfolding esq_session_left_timing_list
esq_session_left_timing_list-IsTiming session w lists pre post timing stands = (
  left_list (list_of (w.timeouts session) (w.timeoutms session)) session w,
  refl,
  left_list-IsTiming w lists (list_of (w.timeouts session) (w.timeoutms session)) session pre post
      timing stands,
)
