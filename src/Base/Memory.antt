-- ===== src/Base/Memory.antt =====
-- Byte memory: what a `char *` points at, by its offset from the pointer. Code that works in place
-- reads and writes it; `slice` is the list of the bytes of a range.
use Prim.Native.Nat.{ℕ, zero, suc, ◌+◌, ◌<◌, ◌≤◌}
use mathlib.Core.Path.{◌≡◌, refl, sym, ap, fun_ext, ◌∙◌}
use mathlib.Core.Logic.{inl, inr}
use mathlib.Core.List.{List, [], ◌∷◌, ◌++◌}
use native.Mathlib.Omega.{arith}
use native.Mathlib.Numerals.{add-one}
use esq.Base.Tests.{◌==◌, if◌then◌else◌, Bool-cases}
use esq.Base.Lists.{length, get_or, take}

abbrev pub Mem : Type 0
Mem = ℕ → ℕ

-- `m[p] = v`
unfoldable pub store : Mem → ℕ → ℕ → Mem
store m p v q = if q == p then v else m q

-- The bytes at `p`, ..., `p + n - 1`.
abbrev pub slice : Mem → ℕ → ℕ → List ℕ
slice m p zero = []
slice m p (suc n) = m p ∷ slice m (p + 1) n

-- Memory that holds the list and zeros behind it, as a string literal does.
abbrev pub literal : List ℕ → Mem
literal xs i = get_or xs i 0

pub store_self : (m : Mem) (p v : ℕ) → store m p v p ≡ v
unfolding store
store_self m p v = ground arith

pub store_ne : (m : Mem) (p v q : ℕ) → (q ≡ p → ⊥) → store m p v q ≡ m q
unfolding store
store_ne m p v q h = ground arith

-- A write of what stands there.
pub store_same : (m : Mem) (p v : ℕ) → m p ≡ v → store m p v ≡ m
unfolding store
store_same m p v h = fun_ext λ q. elim (Bool-cases (q == p)) [
  | inl e ↦ let at : q ≡ p = ground arith in rw e (sym h ∙ ap m (sym at))
  | inr e ↦ rw e refl
]

pub length-slice : (m : Mem) (p n : ℕ) → length (slice m p n) ≡ n
length-slice m p zero = refl
length-slice m p (suc n) = omega (arith, length-slice m (p + 1) n)

-- A write below the range leaves it alone.
pub slice-store_below : (m : Mem) (w v p n : ℕ) → w < p → slice (store m w v) p n ≡ slice m p n
slice-store_below m w v p zero h = refl
slice-store_below m w v p (suc n) h =
    ground (arith, store_ne m w v p, slice-store_below m w v (p + 1) n)

-- A write behind the range leaves it alone.
pub slice-store_behind : (m : Mem) (w v p n : ℕ) → p + n ≤ w → slice (store m w v) p n ≡ slice m p n
slice-store_behind m w v p zero h = refl
slice-store_behind m w v p (suc n) h =
    ground (arith, store_ne m w v p, slice-store_behind m w v (p + 1) n)

-- One more byte at the right end.
pub slice-suc : (m : Mem) (p n : ℕ) → slice m p (suc n) ≡ slice m p n ++ m (p + n) ∷ []
slice-suc m p zero = ground (arith, ap m (let e : p + 0 ≡ p = omega arith in e))
slice-suc m p (suc n) =
    ap (λ (xs : List ℕ). m p ∷ xs)
      (slice-suc m (p + 1) n ∙ ap (λ (k : ℕ). slice m (p + 1) n ++ m k ∷ []) (omega arith))

-- A buffer of `w` bytes with one more byte written behind them.
pub slice-store_push : (m : Mem) (w c : ℕ) → slice (store m w c) 0 (w + 1) ≡ slice m 0 w ++ c ∷ []
slice-store_push m w c = rw add-one (
    slice-suc (store m w c) 0 w
    ∙ ap (λ (xs : List ℕ). xs ++ store m w c (0 + w) ∷ [])
        (slice-store_behind m w c 0 w (omega arith))
    ∙ ap (λ (k : ℕ). slice m 0 w ++ k ∷ []) (ground (arith, store_self m w c)))

pub slice-append : (m : Mem) (p r n : ℕ) → slice m p (r + n) ≡ slice m p r ++ slice m (p + r) n
slice-append m p zero n =
    let none : 0 + n ≡ n = omega arith in let here : p + 0 ≡ p = omega arith in rw (none, here) refl
slice-append m p (suc r) n =
    let first : suc r + n ≡ suc (r + n) = omega arith in
    rw first (
      ap (λ (xs : List ℕ). m p ∷ xs)
        (slice-append m (p + 1) r n
          ∙ ap (λ (k : ℕ). slice m (p + 1) r ++ slice m k n)
              (let e : p + 1 + r ≡ p + suc r = omega arith in e)))

-- The bytes behind a pointer moved by `i`.
pub slice_shift : (m : Mem) (i p n : ℕ) → slice (λ j. m (i + j)) p n ≡ slice m (i + p) n
slice_shift m i p zero = refl
slice_shift m i p (suc n) =
    ap (λ (xs : List ℕ). m (i + p) ∷ xs)
      (slice_shift m i (p + 1) n
        ∙ ap (λ (k : ℕ). slice m k n) (let e : i + (p + 1) ≡ i + p + 1 = omega arith in e))

unfoldable pub strnlen : Mem → ℕ → ℕ
strnlen s zero = 0
strnlen s (suc max) = let rest = strnlen (λ i. s (i + 1)) max in if s 0 == 0 then 0 else rest + 1

pub take-slice : (m : Mem) (p n k : ℕ) → k ≤ n → take k (slice m p n) ≡ slice m p k
take-slice m p n zero h = refl
take-slice m p zero (suc k) h = absurd (omega arith)
take-slice m p (suc n) (suc k) h =
    ap (λ (xs : List ℕ). m p ∷ xs) (take-slice m (p + 1) n k (omega arith))

-- The bytes of a literal from a place on.
slice-literal_from :
    (xs : List ℕ) (m : Mem) (p : ℕ)
    → ((i : ℕ) → i < length xs → m (p + i) ≡ get_or xs i 0)
    → slice m p (length xs) ≡ xs
slice-literal_from [] m p h = refl
slice-literal_from (x ∷ xs) m p h =
    let at : m p ≡ x = ap m (let e : p ≡ p + 0 = omega arith in e) ∙ h 0 (omega arith) in
    let rest : slice m (p + 1) (length xs) ≡ xs =
      slice-literal_from xs m (p + 1)
        λ i b. ap m (let e : p + 1 + i ≡ p + suc i = omega arith in e) ∙ h (suc i) (omega arith) in
    rw (at, rest) refl

pub slice-literal : (xs : List ℕ) → slice (literal xs) 0 (length xs) ≡ xs
slice-literal xs =
    slice-literal_from xs (literal xs) 0
      λ i b. ap (literal xs) (let e : 0 + i ≡ i = omega arith in e)
