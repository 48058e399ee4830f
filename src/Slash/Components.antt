-- ===== src/Slash/Components.antt =====
-- What `remove_redundancy_slash` keeps of a path: its components. And a second call changes nothing.
use esq.Base.{
  ℕ, ◌+◌, ◌<◌, ◌≡◌, ◌≢◌, refl, sym, ap, subst, ◌∙◌, inl, inr, Bool, true, false, List, [], ◌∷◌,
  ◌++◌, arith, if◌then◌else◌, Bool-cases, length, All, Mem, slice, done,
}
use esq.Slash.{is_slash, remove_redundancy_slash}
use esq.Slash.Squeeze.{squeeze, remove_redundancy_slash-squeeze}

-- A component that ends here, unless it is empty.
abbrev pub flush : List ℕ → List (List ℕ) → List (List ℕ)
flush [] rest = rest
flush (x ∷ xs) rest = (x ∷ xs) ∷ rest

-- The components of the rest of a path, where the component `cur` has been begun.
unfoldable pub components_from : List ℕ → List ℕ → List (List ℕ)
components_from cur [] = flush cur []
components_from cur (c ∷ r) =
    let next = flush cur (components_from [] r) in
    let more = components_from (cur ++ c ∷ []) r in if is_slash c then next else more

-- The non-empty pieces between slashes of either kind.
unfoldable pub components : List ℕ → List (List ℕ)
unfolding components_from
components = components_from []

components_from-squeeze :
    (xs cur : List ℕ) (after : Bool)
    → components_from cur (squeeze after xs)
      ≡ (if after then flush cur (components_from [] xs) else components_from cur xs)
unfolding components_from squeeze
components_from-squeeze [] [] true = refl
components_from-squeeze [] [] false = refl
components_from-squeeze [] (c ∷ cs) true = refl
components_from-squeeze [] (c ∷ cs) false = refl
components_from-squeeze (x ∷ xs) cur after = elim (Bool-cases (is_slash x)) [
  | inl slash ↦ rw slash (components_from-squeeze xs cur true ∙ either after _)
  | inr plain ↦ elim (Bool-cases after) [
    | inl t ↦ rw (plain, t) (rw plain (ap (flush cur) (components_from-squeeze xs (x ∷ []) false)))
    | inr f ↦ rw (plain, f) (rw plain (components_from-squeeze xs (cur ++ x ∷ []) false))
  ]
]
  where
    either : (t : Bool) (ys : List (List ℕ)) → ys ≡ (if t then ys else ys)
    either true ys = refl
    either false ys = refl

squeeze-squeeze : (xs : List ℕ) (after : Bool) → squeeze false (squeeze after xs) ≡ squeeze after xs
unfolding squeeze
squeeze-squeeze [] after = refl
squeeze-squeeze (x ∷ xs) after = elim (Bool-cases (is_slash x)) [
  | inl slash ↦ rw slash (squeeze-squeeze xs true)
  | inr plain ↦ elim (Bool-cases after) [
    | inl t ↦ rw (plain, t) (rw plain (ap (λ r. b'/' ∷ x ∷ r) (squeeze-squeeze xs false)))
    | inr f ↦ rw (plain, f) (rw plain (ap (λ r. x ∷ r) (squeeze-squeeze xs false)))
  ]
]

squeeze-nonzero :
    (xs : List ℕ) (after : Bool) → All (λ c. c ≢ 0) xs → All (λ c. c ≢ 0) (squeeze after xs)
unfolding squeeze
squeeze-nonzero [] after h = tt
squeeze-nonzero (x ∷ xs) after (h, hs) = elim (Bool-cases (is_slash x)) [
  | inl slash ↦ rw slash (squeeze-nonzero xs true hs)
  | inr plain ↦ elim (Bool-cases after) [
    | inl t ↦ rw (plain, t) (omega arith, (h, squeeze-nonzero xs false hs))
    | inr f ↦ rw (plain, f) (h, squeeze-nonzero xs false hs)
  ]
]

-- `remove_redundancy_slash` on a string of `n` bytes leaves a string with the same components. The
-- fuel suffices if it exceeds the length.
pub remove_redundancy_slash-components :
    (fuel n : ℕ) (b : Mem)
    → All (λ c. c ≢ 0) (slice b 0 n)
    → b n ≡ 0
    → n < fuel
    → (r : ℕ) × (b' : Mem) × (remove_redundancy_slash fuel b ≡ done (r, b'))
      × (components (slice b' 0 r) ≡ components (slice b 0 n))
      × (b' r ≡ 0)
unfolding components
remove_redundancy_slash-components fuel n b nz z f =
    let (b', run, text, end) = remove_redundancy_slash-squeeze fuel n b nz z f in
    (
      length (squeeze false (slice b 0 n)),
      b',
      run,
      ap (components_from []) text ∙ components_from-squeeze (slice b 0 n) [] false,
      end,
    )

-- A second `remove_redundancy_slash` returns the same length and leaves the same string as the
-- first.
pub remove_redundancy_slash-remove_redundancy_slash :
    (fuel n : ℕ) (b : Mem)
    → All (λ c. c ≢ 0) (slice b 0 n)
    → b n ≡ 0
    → n < fuel
    → (r : ℕ) × (b' b'' : Mem) × (remove_redundancy_slash fuel b ≡ done (r, b'))
      × (remove_redundancy_slash (r + 1) b' ≡ done (r, b''))
      × (slice b'' 0 r ≡ slice b' 0 r)
remove_redundancy_slash-remove_redundancy_slash fuel n b nz z f =
    let (b', run, text, end) = remove_redundancy_slash-squeeze fuel n b nz z f in
    let xs : List ℕ = squeeze false (slice b 0 n) in
    let r : ℕ = length xs in
    let again : squeeze false (slice b' 0 r) ≡ xs =
      ap (squeeze false) text ∙ squeeze-squeeze (slice b 0 n) false in
    let (b'', run', text', _) =
      remove_redundancy_slash-squeeze (r + 1) r b'
        (subst (All (λ c. c ≢ 0)) (sym text) (squeeze-nonzero (slice b 0 n) false nz)) end
        (omega arith) in
    (
      r,
      b',
      b'',
      run,
      run' ∙ ap (λ ys. done (length ys, b'')) again,
      subst (λ ys. slice b'' 0 (length ys) ≡ ys) again text' ∙ sym text,
    )
