-- ===== src/Slash/FindLast.antt =====
-- The position that the two `find_last_slash` functions return.
use esq.Base.{
  ℕ, zero, suc, ◌+◌, ◌<◌, ◌≡◌, ◌≢◌, ◌⊎◌, refl, sym, ap, subst, ◌∙◌, inl, inr, true, false, Option,
  none, some, List, [], ◌∷◌, ◌++◌, arith, ◌==◌, if◌then◌else◌, Bool-cases, any, length, All, Mem,
  slice, done,
}
use esq.Slash.{
  is_slash, find_last_slash_loop, find_last_slash, find_last_slash2_loop, find_last_slash2,
}

-- The list holds a slash at position `p` and none behind it.
pub record LastAt (xs : List ℕ) (p : ℕ) : Type 0 where
  pub before : List ℕ
  pub slash : ℕ
  pub behind : List ℕ
  pub splits : xs ≡ before ++ slash ∷ behind
  pub position : length before ≡ p
  pub is : is_slash slash ≡ true
  pub last : any is_slash behind ≡ false

-- What a result says of a text: -1 that it has no slash, and a position that the last is there.
abbrev pub IsLastSlash : List ℕ → Option ℕ → Type 0
IsLastSlash xs none = any is_slash xs ≡ false
IsLastSlash xs (some p) = LastAt xs p

abbrev Found : ℕ → Option ℕ → List ℕ → Option ℕ → Type 0
Found i p xs r =
    ((any is_slash xs ≡ false) × (r ≡ p)) ⊎ ((q : ℕ) × (r ≡ some (i + q)) × LastAt xs q)

LastAt-cons : (c : ℕ) (xs : List ℕ) (q : ℕ) → LastAt xs q → LastAt (c ∷ xs) (q + 1)
LastAt-cons c xs q l = record {
  before = c ∷ l.before;
  slash = l.slash;
  behind = l.behind;
  splits = ap (λ ys. c ∷ ys) l.splits;
  position = ground (arith, l.position);
  is = l.is;
  last = l.last;
}

loop-Found :
    (n : ℕ) (b : Mem) (i : ℕ) (p : Option ℕ)
    → Found i p (slice b i n) (find_last_slash2_loop b i p n)
unfolding find_last_slash2_loop
loop-Found zero b i p = inl (refl, refl)
loop-Found (suc n) b i p = elim (Bool-cases (is_slash (b i))) [
  | inl slash ↦
      subst
        (λ t.
          Found i p (b i ∷ slice b (i + 1) n)
            (find_last_slash2_loop b (i + 1) (if t then some i else p) n))
        (sym slash) (here slash _ (loop-Found n b (i + 1) (some i)))
  | inr plain ↦
      subst
        (λ t.
          Found i p (b i ∷ slice b (i + 1) n)
            (find_last_slash2_loop b (i + 1) (if t then some i else p) n))
        (sym plain) (there plain _ (loop-Found n b (i + 1) p))
]
  where
    next : (r : Option ℕ) (q : ℕ) → r ≡ some (i + 1 + q) → r ≡ some (i + (q + 1))
    next r q e = e ∙ ap some (let z : i + 1 + q ≡ i + (q + 1) = omega arith in z)

    here :
        is_slash (b i) ≡ true
        → (r : Option ℕ) → Found (i + 1) (some i) (slice b (i + 1) n) r
        → Found i p (b i ∷ slice b (i + 1) n) r
    here slash r (inl (rest, e)) = inr (
      0,
      e ∙ ap some (let z : i ≡ i + 0 = omega arith in z),
      record {
        before = [];
        slash = b i;
        behind = slice b (i + 1) n;
        splits = refl;
        position = refl;
        is = slash;
        last = rest;
      },
    )
    here slash r (inr (q, e, l)) = inr (q + 1, next r q e, LastAt-cons (b i) _ q l)

    there :
        is_slash (b i) ≡ false
        → (r : Option ℕ) → Found (i + 1) p (slice b (i + 1) n) r
        → Found i p (b i ∷ slice b (i + 1) n) r
    there plain r (inl (rest, e)) = inl (rw plain rest, e)
    there plain r (inr (q, e, l)) = inr (q + 1, next r q e, LastAt-cons (b i) _ q l)

-- `find_last_slash2` returns the position of the last slash or backslash among the first `len`
-- bytes, and -1 exactly where there is none.
pub find_last_slash2-IsLastSlash :
    (b : Mem) (len : ℕ) → IsLastSlash (slice b 0 len) (find_last_slash2 b len)
unfolding find_last_slash2
find_last_slash2-IsLastSlash b len =
    read (find_last_slash2_loop b 0 none len) (loop-Found len b 0 none)
  where
    read : (r : Option ℕ) → Found 0 none (slice b 0 len) r → IsLastSlash (slice b 0 len) r
    read none (inl (h, e)) = h
    read none (inr (q, e, l)) = cc
    read (some p) (inl (h, e)) = cc
    read (some p) (inr (q, e, l)) =
        let same : q ≡ p = ground arith in
        record {
          before = l.before;
          slash = l.slash;
          behind = l.behind;
          splits = l.splits;
          position = l.position ∙ same;
          is = l.is;
          last = l.last;
        }

loop-loop :
    (fuel n : ℕ) (b : Mem) (i : ℕ) (p : Option ℕ)
    → All (λ c. c ≢ 0) (slice b i n)
    → b (i + n) ≡ 0
    → n < fuel
    → find_last_slash_loop fuel b i p ≡ done (find_last_slash2_loop b i p n)
unfolding find_last_slash_loop find_last_slash2_loop
loop-loop zero n b i p nz z f = absurd (omega arith)
loop-loop (suc fuel) zero b i p nz z f =
    let e : b i ≡ 0 = ap b (let k : i ≡ i + 0 = omega arith in k) ∙ z in
    let end : (b i == 0) ≡ true = ground arith in rw end refl
loop-loop (suc fuel) (suc n) b i p (nz, nzs) z f =
    let more : (b i == 0) ≡ false = ground arith in
    let z' : b (i + 1 + n) ≡ 0 = ap b (let k : i + 1 + n ≡ i + suc n = omega arith in k) ∙ z in
    rw more (loop-loop fuel n b (i + 1) _ nzs z' (omega arith))

-- `find_last_slash` on a string of `n` bytes ends with the position of its last slash, and with -1
-- exactly where it has none. The fuel suffices if it exceeds the length.
pub find_last_slash-IsLastSlash :
    (fuel n : ℕ) (b : Mem)
    → All (λ c. c ≢ 0) (slice b 0 n)
    → b n ≡ 0
    → n < fuel
    → (r : Option ℕ) × (find_last_slash fuel b ≡ done r) × IsLastSlash (slice b 0 n) r
unfolding find_last_slash
find_last_slash-IsLastSlash fuel n b nz z f = (
  find_last_slash2 b n,
  unfold find_last_slash2 in
      loop-loop fuel n b 0 none nz (ap b (let e : 0 + n ≡ n = omega arith in e) ∙ z) f,
  find_last_slash2-IsLastSlash b n,
)
