-- ===== src/UrlParams/Texts.antt =====
-- Texts in the URL: what the pointers of the parameters point at.
use esq.Base.{
  ℕ, ◌+◌, ◌-◌, ◌<◌, ◌≤◌, ◌≡◌, ◌∙◌, inl, inr, Option, none, some, arith, ◌==◌, Bool-cases, Mem,
  store, store_self, store_ne,
}

-- At `p` stands a string of `l` bytes that are those of the URL `url0`, its NUL before `i`.
abbrev pub Text : Mem → Mem → ℕ → ℕ → ℕ → Type 0
Text url0 u i p l = (p + l < i) × (u (p + l) ≡ 0) × ((q : ℕ) → p ≤ q → q < p + l → u q ≡ url0 q)

-- There is a name, and it is a text that is not empty.
abbrev pub Named : Mem → Mem → ℕ → Option ℕ → ℕ → Type 0
Named url0 u i none l = ⊥
Named url0 u i (some p) l = (1 ≤ l) × Text url0 u i p l

-- There is no value, or it is a text that is not empty.
abbrev pub Valued : Mem → Mem → ℕ → Option ℕ → ℕ → Type 0
Valued url0 u i none l = l ≡ 0
Valued url0 u i (some p) l = (1 ≤ l) × Text url0 u i p l

module _ (url0 : Mem) where
  pub Text-weaken : (u : Mem) (i i' p l : ℕ) → i ≤ i' → Text url0 u i p l → Text url0 u i' p l
  Text-weaken u i i' p l h (end, zero_end, same) = (omega arith, zero_end, same)

  pub Text-store : (u : Mem) (i p l : ℕ) → Text url0 u i p l → Text url0 (store u i 0) i p l
  Text-store u i p l (end, zero_end, same) = (
    end,
    store_ne u i 0 (p + l) (omega arith) ∙ zero_end,
    λ q a b. store_ne u i 0 q (omega arith) ∙ same q a b,
  )

  pub Named-weaken :
      (u : Mem) (i i' : ℕ) (p : Option ℕ) (l : ℕ)
      → i ≤ i'
      → Named url0 u i p l
      → Named url0 u i' p l
  Named-weaken u i i' none l h n = n
  Named-weaken u i i' (some p) l h (more, t) = (more, Text-weaken u i i' p l h t)

  pub Valued-weaken :
      (u : Mem) (i i' : ℕ) (p : Option ℕ) (l : ℕ)
      → i ≤ i'
      → Valued url0 u i p l
      → Valued url0 u i' p l
  Valued-weaken u i i' none l h n = n
  Valued-weaken u i i' (some p) l h (more, t) = (more, Text-weaken u i i' p l h t)

  pub Named-store :
      (u : Mem) (i : ℕ) (p : Option ℕ) (l : ℕ) → Named url0 u i p l → Named url0 (store u i 0) i p l
  Named-store u i none l n = n
  Named-store u i (some p) l (more, t) = (more, Text-store u i p l t)

  pub Valued-store :
      (u : Mem) (i : ℕ) (p : Option ℕ) (l : ℕ)
      → Valued url0 u i p l
      → Valued url0 (store u i 0) i p l
  Valued-store u i none l n = n
  Valued-store u i (some p) l (more, t) = (more, Text-store u i p l t)

  -- A name or a value has been read from `p` to `i`.
  unfoldable pub Fresh : Mem → ℕ → ℕ → Type 0
  Fresh u p i = (p < i) × ((q : ℕ) → p ≤ q → q < i → u q ≡ url0 q)

  pub Fresh-suc :
      (u : Mem) (p i : ℕ)
      → p ≤ i
      → u i ≡ url0 i
      → ((q : ℕ) → p ≤ q → q < i → u q ≡ url0 q)
      → Fresh u p (i + 1)
  unfolding Fresh
  Fresh-suc u p i h e same = (
    omega arith,
    λ q a b. elim (Bool-cases (q == i)) [
      | inl at ↦ let k : q ≡ i = ground arith in rw k e
      | inr before ↦ same q a (ground arith)
    ],
  )

  pub Fresh-Text :
      (u : Mem) (p i : ℕ) → Fresh u p i → (1 ≤ i - p) × Text url0 (store u i 0) (i + 1) p (i - p)
  unfolding Fresh
  Fresh-Text u p i (h, same) =
      let e : p + (i - p) ≡ i = omega arith in
      (
        omega arith,
        (
          omega arith,
          rw e (store_self u i 0),
          λ q a b. store_ne u i 0 q (omega arith) ∙ same q a (omega arith),
        ),
      )
