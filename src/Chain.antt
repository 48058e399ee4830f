-- ===== src/Chain.antt =====
-- Singly linked lists in memory: what a chain of `next` pointers that ends at NULL stands for.
pub mod Seg
use esq.Base.{
  ℕ, ◌≡◌, ◌≢◌, refl, sym, ap, subst, inl, inr, Bool, true, false, ◌||◌, List, [], ◌∷◌, ◌++◌, arith,
  ◌==◌, ==_iff, Bool-cases, Mem, store,
}

-- The address 0.
abbrev pub null : ℕ
null = 0

abbrev pub has : ℕ → List ℕ → Bool
has a [] = false
has a (x ∷ xs) = a == x || has a xs

-- No address stands twice.
abbrev pub Distinct : List ℕ → Type 0
Distinct [] = Unit
Distinct (x ∷ xs) = (has x xs ≡ false) × Distinct xs

-- The `next` pointers lead from `p` through the nodes of the list to NULL.
abbrev pub Chain : Mem → ℕ → List ℕ → Type 0
Chain next p [] = p ≡ null
Chain next p (x ∷ xs) = (p ≡ x) × (x ≢ null) × Chain next (next x) xs

-- The last node of `x ∷ xs`.
abbrev pub last : ℕ → List ℕ → ℕ
last x [] = x
last x (y ∷ ys) = last y ys

pub has-append : (a : ℕ) (xs ys : List ℕ) → has a (xs ++ ys) ≡ (has a xs || has a ys)
has-append a [] ys = refl
has-append a (x ∷ xs) ys = ground (arith, has-append a xs ys)

pub has-last : (x : ℕ) (xs : List ℕ) → has (last x xs) (x ∷ xs) ≡ true
has-last x [] = ground arith
has-last x (y ∷ ys) = ground (arith, has-last y ys)

pub Distinct-concat :
    (xs : List ℕ) (c : ℕ) → Distinct xs → has c xs ≡ false → Distinct (xs ++ c ∷ [])
Distinct-concat [] c d h = (refl, tt)
Distinct-concat (x ∷ xs) c (n, d) h =
    (rw has-append (ground arith), Distinct-concat xs c d (ground arith))

-- A write to a node outside the chain.
pub Chain-store :
    (next : Mem) (q v p : ℕ) (xs : List ℕ)
    → has q xs ≡ false
    → Chain next p xs
    → Chain (store next q v) p xs
unfolding store
Chain-store next q v p [] h c = c
Chain-store next q v p (x ∷ xs) h (e, n, c) =
    let same : store next q v x ≡ next x = ground arith in
    (e, n, rw same (Chain-store next q v (next x) xs (ground arith) c))

-- The last node is made to point at a new node, which ends the chain.
pub Chain-concat :
    (next : Mem) (p x : ℕ) (xs : List ℕ) (c : ℕ)
    → c ≢ null
    → Distinct (x ∷ xs)
    → has c (x ∷ xs) ≡ false
    → Chain next p (x ∷ xs)
    → Chain (store (store next (last x xs) c) c null) p ((x ∷ xs) ++ c ∷ [])
unfolding store
Chain-concat next p x [] c nz d h (e, n, f) = (e, n, (ground arith, nz, ground arith))
Chain-concat next p x (y ∷ ys) c nz (d, ds) h (e, n, f) =
    let other : (x == last y ys) ≡ false = apart (last y ys) (has-last y ys) in
    let same : store (store next (last y ys) c) c null x ≡ next x = ground arith in
    (e, n, rw same (Chain-concat next (next x) y ys c nz ds (ground arith) f))
  where
    apart : (t : ℕ) → has t (y ∷ ys) ≡ true → (x == t) ≡ false
    apart t m = elim (Bool-cases (x == t)) [
      | inr ne ↦ ne
      | inl eq ↦ cc (ap (λ (a : ℕ). has a (y ∷ ys)) ((==_iff x t).0 eq), d, m)
    ]

-- The same, with the last node known by an equation.
pub Chain-concat_at :
    (next : Mem) (t p x : ℕ) (xs : List ℕ) (c : ℕ)
    → t ≡ last x xs
    → c ≢ null
    → Distinct (x ∷ xs)
    → has c (x ∷ xs) ≡ false
    → Chain next p (x ∷ xs)
    → Chain (store (store next t c) c null) p ((x ∷ xs) ++ c ∷ [])
Chain-concat_at next t p x xs c e nz d h f =
    subst (λ u. Chain (store (store next u c) c null) p ((x ∷ xs) ++ c ∷ [])) (sym e)
      (Chain-concat next p x xs c nz d h f)
