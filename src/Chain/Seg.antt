-- ===== src/Chain/Seg.antt =====
-- Parts of chains: the `next` pointers lead from a node through the nodes of a list to an end.
use esq.Base.{
  ◌<◌, ◌≤◌, not, length, length-filter, ℕ, ◌≡◌, ◌≢◌, refl, sym, ap, subst, ◌∙◌, inl, inr, Bool,
  true, false, List, [], ◌∷◌, ◌++◌, arith, ◌==◌, Bool-cases, filter, Mem, store, store_self,
  store_ne,
}
use esq.Chain.{null, has, Distinct, Chain, last, has-append, has-last}

abbrev pub Seg : Mem → ℕ → List ℕ → ℕ → Type 0
Seg next p [] e = p ≡ e
Seg next p (x ∷ xs) e = (p ≡ x) × (x ≢ null) × Seg next (next x) xs e

-- The first node, or NULL.
abbrev pub first : List ℕ → ℕ
first [] = null
first (x ∷ xs) = x

pub Seg-append :
    (next : Mem) (p : ℕ) (xs : List ℕ) (e : ℕ) (ys : List ℕ) (f : ℕ)
    → Seg next p xs e
    → Seg next e ys f
    → Seg next p (xs ++ ys) f
Seg-append next p [] e ys f s t = subst (λ a. Seg next a ys f) (sym s) t
Seg-append next p (x ∷ xs) e ys f (h, n, s) t = (h, n, Seg-append next (next x) xs e ys f s t)

pub Seg-Chain : (next : Mem) (p : ℕ) (xs : List ℕ) → Seg next p xs null → Chain next p xs
Seg-Chain next p [] s = s
Seg-Chain next p (x ∷ xs) (h, n, s) = (h, n, Seg-Chain next (next x) xs s)

-- A write to a node outside.
pub Seg-store :
    (next : Mem) (q v p : ℕ) (xs : List ℕ) (e : ℕ)
    → has q xs ≡ false
    → Seg next p xs e
    → Seg (store next q v) p xs e
Seg-store next q v p [] e h s = s
Seg-store next q v p (x ∷ xs) e h (i, n, s) =
    let same : store next q v x ≡ next x = store_ne next q v x (ground arith) in
    (i, n, rw same (Seg-store next q v (next x) xs e (ground arith) s))

pub has-head : (x : ℕ) (xs : List ℕ) → has x (x ∷ xs) ≡ true
has-head x xs = ground arith

pub has_subst : (a b : ℕ) (xs : List ℕ) → a ≡ b → has b xs ≡ false → has a xs ≡ true → ⊥
has_subst a b xs e h k = cc (ap (λ (c : ℕ). has c xs) e, h, k)

-- The last node is made to point elsewhere.
pub Seg-last :
    (next : Mem) (p x : ℕ) (xs : List ℕ) (e v : ℕ)
    → Distinct (x ∷ xs)
    → Seg next p (x ∷ xs) e
    → Seg (store next (last x xs) v) p (x ∷ xs) v
Seg-last next p x [] e v d (h, n, s) = (h, n, store_self next x v)
Seg-last next p x (y ∷ ys) e v (dx, d) (h, n, s) =
    let same : store next (last y ys) v x ≡ next x =
      store_ne next (last y ys) v x
        λ q. has_subst (last y ys) x (y ∷ ys) (sym q) dx (has-last y ys) in
    (h, n, rw same (Seg-last next (next x) y ys e v d s))

pub Seg-end :
    (next : Mem) (p x : ℕ) (xs : List ℕ) (e : ℕ) → Seg next p (x ∷ xs) e → next (last x xs) ≡ e
Seg-end next p x [] e (h, n, s) = s
Seg-end next p x (y ∷ ys) e (h, n, s) = Seg-end next (next x) y ys e s

pub has-filter :
    (f : ℕ → Bool) (a : ℕ) (xs : List ℕ)
    → has a (filter f xs) ≡ true
    → (has a xs ≡ true) × (f a ≡ true)
has-filter f a [] h = absurd (cc h)
has-filter f a (x ∷ xs) h = elim (Bool-cases (f x)) [
  | inr no_x ↦ let (m, g) = has-filter f a xs (rw no_x at h) in (ground arith, g)
  | inl yes_x ↦
      let k = rw yes_x at h in
      elim (Bool-cases (a == x)) [
        | inl at ↦ let e : a ≡ x = ground arith in (ground arith, ap f e ∙ yes_x)
        | inr ne ↦ let (m, g) = has-filter f a xs (rw ne at k) in (ground arith, g)
      ]
]

pub has-filter-false :
    (f : ℕ → Bool) (a : ℕ) (xs : List ℕ) → has a xs ≡ false → has a (filter f xs) ≡ false
has-filter-false f a xs h = elim (Bool-cases (has a (filter f xs))) [
  | inl m ↦ absurd (cc (h, (has-filter f a xs m).0))
  | inr n ↦ n
]

pub Distinct-filter : (f : ℕ → Bool) (xs : List ℕ) → Distinct xs → Distinct (filter f xs)
Distinct-filter f [] d = tt
Distinct-filter f (x ∷ xs) (n, d) = elim (Bool-cases (f x)) [
  | inl e ↦ rw e (has-filter-false f x xs n, Distinct-filter f xs d)
  | inr e ↦ rw e (Distinct-filter f xs d)
]

pub Distinct-before :
    (xs : List ℕ) (y : ℕ) (ys : List ℕ)
    → Distinct (xs ++ (y ∷ ys))
    → (has y xs ≡ false) × Distinct xs
Distinct-before [] y ys d = (refl, tt)
Distinct-before (x ∷ xs) y ys (n, d) =
    let (m, ds) = Distinct-before xs y ys d in
    (ground (arith, has-append x xs (y ∷ ys)), (ground (arith, has-append x xs (y ∷ ys)), ds))

pub Chain-Seg : (next : Mem) (p : ℕ) (xs : List ℕ) → Chain next p xs → Seg next p xs null
Chain-Seg next p [] s = s
Chain-Seg next p (x ∷ xs) (h, n, s) = (h, n, Chain-Seg next (next x) xs s)

-- The last node, or NULL.
abbrev pub back : List ℕ → ℕ
back [] = null
back (x ∷ xs) = last x xs

pub last-push : (x : ℕ) (xs : List ℕ) (p : ℕ) → last x (xs ++ p ∷ []) ≡ p
last-push x [] p = refl
last-push x (y ∷ ys) p = last-push y ys p

pub back-push : (xs : List ℕ) (p : ℕ) → back (xs ++ p ∷ []) ≡ p
back-push [] p = refl
back-push (x ∷ xs) p = last-push x xs p

pub Seg-last_not_null :
    (next : Mem) (p x : ℕ) (xs : List ℕ) (e : ℕ) → Seg next p (x ∷ xs) e → last x xs ≢ null
Seg-last_not_null next p x [] e (h, n, s) = n
Seg-last_not_null next p x (y ∷ ys) e (h, n, s) = Seg-last_not_null next (next x) y ys e s

-- A node of the first part is not in the second.
pub Distinct-apart :
    (xs ys : List ℕ) (a : ℕ) → Distinct (xs ++ ys) → has a xs ≡ true → has a ys ≡ false
Distinct-apart [] ys a d h = absurd (cc h)
Distinct-apart (x ∷ xs) ys a (n, d) h = elim (Bool-cases (a == x)) [
  | inl e ↦ let same : a ≡ x = ground arith in rw same (ground (arith, n, has-append x xs ys))
  | inr e ↦ Distinct-apart xs ys a d (rw e at h)
]

pub Distinct-skip :
    (xs : List ℕ) (y : ℕ) (ys : List ℕ) → Distinct (xs ++ (y ∷ ys)) → Distinct (xs ++ ys)
Distinct-skip [] y ys (n, d) = d
Distinct-skip (x ∷ xs) y ys (n, d) =
    (ground (arith, n, has-append x xs (y ∷ ys), has-append x xs ys), Distinct-skip xs y ys d)

pub Distinct-append_left : (xs ys : List ℕ) → Distinct (xs ++ ys) → Distinct xs
Distinct-append_left [] ys d = tt
Distinct-append_left (x ∷ xs) ys (n, d) =
    (ground (arith, n, has-append x xs ys), Distinct-append_left xs ys d)

pub Distinct-append :
    (xs ys : List ℕ)
    → Distinct xs
    → Distinct ys
    → ((a : ℕ) → has a xs ≡ true → has a ys ≡ false)
    → Distinct (xs ++ ys)
Distinct-append [] ys d e apart = e
Distinct-append (x ∷ xs) ys (n, d) e apart =
    let out : has x ys ≡ false = apart x (has-head x xs) in
    (
      ground (arith, has-append x xs ys, n, out),
      Distinct-append xs ys d e λ a h. apart a (ground (arith, h)),
    )

-- Without `x`.
abbrev pub remove : ℕ → List ℕ → List ℕ
remove x ys = filter (λ a. not (a == x)) ys

length-remove : (x : ℕ) (ys : List ℕ) → has x ys ≡ true → length (remove x ys) < length ys
length-remove x [] h = absurd (cc h)
length-remove x (y ∷ ys) h = elim (Bool-cases (y == x)) [
  | inl e ↦ rw e (omega (arith, length-filter (λ a. not (a == x)) ys))
  | inr e ↦
      let ne : (x == y) ≡ false = ground arith in
      rw e (omega (arith, length-remove x ys (rw ne at h)))
]

has-remove :
    (a x : ℕ) (ys : List ℕ) → (a == x) ≡ false → has a ys ≡ true → has a (remove x ys) ≡ true
has-remove a x [] ne h = absurd (cc h)
has-remove a x (y ∷ ys) ne h = elim (Bool-cases (y == x)) [
  | inl e ↦
      let other : (a == y) ≡ false = ground arith in rw e (has-remove a x ys ne (rw other at h))
  | inr e ↦ rw e (elim (Bool-cases (a == y)) [
    | inl at ↦ ground arith
    | inr no_y ↦ ground (arith, has-remove a x ys ne (rw no_y at h))
  ])
]

-- Different nodes of a list are not more than its nodes.
pub length-Distinct :
    (xs ys : List ℕ)
    → Distinct xs
    → ((a : ℕ) → has a xs ≡ true → has a ys ≡ true)
    → length xs ≤ length ys
length-Distinct [] ys d sub = omega arith
length-Distinct (x ∷ xs) ys (n, d) sub = omega (
  arith,
  length-remove x ys (sub x (has-head x xs)),
  length-Distinct xs (remove x ys) d
      λ a h. has-remove a x ys (other a h) (sub a (ground (arith, h))),
)
  where
    other : (a : ℕ) → has a xs ≡ true → (a == x) ≡ false
    other a h = elim (Bool-cases (a == x)) [
      | inl e ↦ let same : a ≡ x = ground arith in absurd (has_subst a x xs same n h)
      | inr e ↦ e
    ]
