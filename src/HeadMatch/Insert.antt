-- ===== src/HeadMatch/Insert.antt =====
-- What `strncmp` and `strnlen` find of texts.
use esq.Base.{
  ℕ, zero, suc, ◌+◌, ◌<◌, ◌≡◌, ◌≢◌, sym, ap, subst, ◌∙◌, inl, inr, true, false, arith, ltb, ◌==◌,
  Bool-cases, Mem, strnlen,
}
use esq.HeadMatch.{Compared, lower, same, higher, strncmp}
use esq.HeadMatch.Order.{Before}

pub strnlen_before : (s : Mem) (max x : ℕ) → x < strnlen s max → s x ≢ 0
unfolding strnlen
strnlen_before s zero x h = absurd (omega arith)
strnlen_before s (suc max) x h = elim (Bool-cases (s 0 == 0)) [
  | inl e ↦ let none_left : x < 0 = rw e at h in absurd (omega arith)
  | inr e ↦
      let more : x < strnlen (λ i. s (i + 1)) max + 1 = rw e at h in
      by_place e x more (strnlen_before (λ i. s (i + 1)) max)
]
  where
    by_place :
        (s 0 == 0) ≡ false
        → (x : ℕ) → x < strnlen (λ i. s (i + 1)) max + 1
        → ((y : ℕ) → y < strnlen (λ i. s (i + 1)) max → s (y + 1) ≢ 0)
        → s x ≢ 0
    by_place e zero h ih = ground arith
    by_place e (suc y) h ih =
        λ z. ih y (omega arith) (ap s (let e : y + 1 ≡ suc y = omega arith in e) ∙ z)

pub strnlen_at : (s : Mem) (max : ℕ) → strnlen s max < max → s (strnlen s max) ≡ 0
unfolding strnlen
strnlen_at s zero h = absurd (omega arith)
strnlen_at s (suc max) h = elim (Bool-cases (s 0 == 0)) [
  | inl e ↦ rw e (ground arith)
  | inr e ↦
      let more : strnlen (λ i. s (i + 1)) max + 1 < suc max = rw e at h in
      rw e (strnlen_at (λ i. s (i + 1)) max (omega arith))
]

Before-suc :
    (a b : Mem) → a 0 ≡ b 0 → a 0 ≢ 0 → Before (λ i. a (i + 1)) (λ i. b (i + 1)) → Before a b
Before-suc a b e nz (d, agree, less) = (d + 1, at, less)
  where
    at : (x : ℕ) → x < d + 1 → (a x ≡ b x) × (a x ≢ 0)
    at zero h = (e, nz)
    at (suc x) h =
        let shift : x + 1 ≡ suc x = omega arith in
        subst (λ y. (a y ≡ b y) × (a y ≢ 0)) shift (agree x (omega arith))

-- What `strncmp` finds.
abbrev pub Finds : Mem → Mem → ℕ → Compared → Type 0
Finds a b n lower = Before b a
Finds a b n same = (x : ℕ) → x < n → ((y : ℕ) → y < x → a y ≢ 0) → a x ≡ b x
Finds a b n higher = Before a b

pub strncmp-Finds : (a b : Mem) (n : ℕ) → Finds a b n (strncmp a b n)
unfolding strncmp
strncmp-Finds a b zero = λ x h f. absurd (omega arith)
strncmp-Finds a b (suc n) = elim (Bool-cases (ltb (b 0) (a 0))) [
  | inl e1 ↦ rw e1 (0, (λ x h. absurd (omega arith)), ground arith)
  | inr e1 ↦ elim (Bool-cases (ltb (a 0) (b 0))) [
    | inl e2 ↦ rw (e1, e2) (0, (λ x h. absurd (omega arith)), ground arith)
    | inr e2 ↦
        let first : a 0 ≡ b 0 = ground arith in
        elim (Bool-cases (a 0 == 0)) [
          | inl e3 ↦ rw (e1, e2, e3) (λ x h f. both x first (f 0) e3)
          | inr e3 ↦
              rw (e1, e2, e3)
                (later first (ground arith) (strncmp (λ i. a (i + 1)) (λ i. b (i + 1)) n)
                  (strncmp-Finds (λ i. a (i + 1)) (λ i. b (i + 1)) n))
        ]
  ]
]
  where
    both : (x : ℕ) → a 0 ≡ b 0 → (0 < x → a 0 ≢ 0) → (a 0 == 0) ≡ true → a x ≡ b x
    both zero e f z = e
    both (suc x) e f z = absurd (f (omega arith) (ground arith))

    later :
        a 0 ≡ b 0
        → a 0 ≢ 0
        → (c : Compared) → Finds (λ i. a (i + 1)) (λ i. b (i + 1)) n c
        → Finds a b (suc n) c
    later e nz lower f = Before-suc b a (sym e) (λ z. nz (e ∙ z)) f
    later e nz higher f = Before-suc a b e nz f
    later e nz same f = at
      where
        at : (x : ℕ) → x < suc n → ((y : ℕ) → y < x → a y ≢ 0) → a x ≡ b x
        at zero h g = e
        at (suc x) h g =
            let shift : x + 1 ≡ suc x = omega arith in
            subst (λ y. a y ≡ b y) shift (f x (omega arith) λ y k. g (y + 1) (omega arith))

pub Before-trans : (p q r : Mem) → Before p q → Before q r → Before p r
Before-trans p q r (d, ag, less) (e, ah, lesser) = elim (Bool-cases (ltb d e)) [
  | inl low ↦
      let below : d < e = ground arith in
      let at = (ah d below).0 in
      (d, (λ x h. ((ag x h).0 ∙ (ah x (omega arith)).0, (ag x h).1)), omega (arith, at, less))
  | inr more ↦ elim (Bool-cases (d == e)) [
    | inl at ↦
        let eq : d ≡ e = ground arith in
        let lesser2 : r d < q d = subst (λ k. r k < q k) (sym eq) lesser in
        (d, (λ x h. ((ag x h).0 ∙ (ah x (omega arith)).0, (ag x h).1)), omega arith)
    | inr ne ↦
        let above : e < d = ground arith in
        let at = (ag e above).0 in
        (
          e,
          (λ x h. ((ag x (omega arith)).0 ∙ (ah x h).0, (ag x (omega arith)).1)),
          omega (arith, at, lesser),
        )
  ]
]
