-- ===== src/HeadMatch/Order.antt =====
-- The order of the patterns: each pattern stands before its prefixes.
use esq.Base.{
  ℕ, ◌+◌, ◌^◌, ◌<◌, ◌≤◌, ◌≡◌, ◌≢◌, sym, ap, subst, ◌∙◌, inl, inr, arith, ltb, ◌==◌, Bool-cases, Mem,
}
use esq.HeadMatch.{Hmt, byte}

-- `strncmp` finds the first text higher.
abbrev pub Before : Mem → Mem → Type 0
Before p q = (d : ℕ) × ((x : ℕ) → x < d → (p x ≡ q x) × (p x ≢ 0)) × (q d < p d)

-- A text of ASCII bytes.
abbrev pub IsText : Mem → ℕ → Type 0
IsText p l = ((x : ℕ) → x < l → (p x ≢ 0) × (p x < 128)) × (p l ≡ 0)

-- The items of a matcher: texts that are short enough, in the order of `hmt_add`.
pub record IsMatcher (pt : Hmt) (len : ℕ → ℕ) : Type 0 where
  pub size : pt.pattern_len_max ≡ 2 ^ pt.pattern_len_max_shift
  pub text : (i : ℕ) → i < pt.cnt → IsText (pt.items i).pattern (len i)
  pub short : (i : ℕ) → i < pt.cnt → len i < pt.pattern_len_max
  pub sorted : (i j : ℕ) → i < j → j < pt.cnt → Before (pt.items i).pattern (pt.items j).pattern

-- The items of a part have the same bytes before `depth`, and do not end there.
abbrev pub Common : Hmt → ℕ → ℕ → ℕ → Type 0
Common pt depth s e =
    (i x : ℕ) → s ≤ i → i ≤ e → x < depth → (byte pt i x ≡ byte pt s x) × (byte pt i x ≢ 0)

pub Common-part :
    (pt : Hmt) (depth s e t f : ℕ) → s ≤ t → f ≤ e → Common pt depth s e → Common pt depth t f
Common-part pt depth s e t f h k c i x a b d =
    let (same, nz) = c i x (omega arith) (omega arith) d in
    let (own, own_nz) = c t x h (omega arith) d in (same ∙ sym own, nz)

pub Common-next :
    (pt : Hmt) (depth s e : ℕ)
    → Common pt depth s e
    → ((i : ℕ) → s ≤ i → i ≤ e → byte pt i depth ≡ byte pt s depth)
    → byte pt s depth ≢ 0
    → Common pt (depth + 1) s e
Common-next pt depth s e c all nz i x a b d = elim (Bool-cases (x == depth)) [
  | inl at ↦
      let same : x ≡ depth = ground arith in
      (
        ap (byte pt i) same ∙ all i a b ∙ ap (byte pt s) (sym same),
        λ z. nz (sym (all i a b) ∙ ap (byte pt i) (sym same) ∙ z),
      )
  | inr ne ↦ c i x a b (ground arith)
]

module _ (pt : Hmt) (len : ℕ → ℕ) (ok : IsMatcher pt len) (depth s e : ℕ) (c : Common pt depth s e)
    (inside : e < pt.cnt) where
  -- The bytes at `depth` do not rise, and no item but the last ends there.
  falls :
      (i j : ℕ)
      → s ≤ i
      → i < j
      → j ≤ e
      → (byte pt j depth ≤ byte pt i depth) × (byte pt i depth ≢ 0)
  falls i j a b d =
      let (k, agree, less) = ok.sorted i j b (omega arith) in
      elim (Bool-cases (ltb k depth)) [
        | inl low ↦
            let at : k < depth = ground arith in
            let (si, ni) = c i k a (omega arith) at in
            let (sj, nj) = c j k (omega arith) d at in absurd (omega (arith, less, si, sj))
        | inr high ↦ elim (Bool-cases (k == depth)) [
          | inl at ↦
              let same : k ≡ depth = ground arith in
              let less2 : byte pt j depth < byte pt i depth =
                subst (λ m. byte pt j m < byte pt i m) same less in
              (omega arith, omega arith)
          | inr ne ↦ let (same, nz) = agree depth (ground arith) in (omega (arith, same), nz)
        ]
      ]

  pub mono : (i j : ℕ) → s ≤ i → i ≤ j → j ≤ e → byte pt j depth ≤ byte pt i depth
  mono i j a b d = elim (Bool-cases (i == j)) [
    | inl at ↦
        let same : i ≡ j = ground arith in
        let bytes : byte pt i depth ≡ byte pt j depth = ap (λ k. byte pt k depth) same in
        omega (arith, bytes)
    | inr ne ↦ (falls i j a (ground arith) d).0
  ]

  pub zero_last : (i : ℕ) → s ≤ i → i < e → byte pt i depth ≢ 0
  zero_last i a b = (falls i e a b (omega arith)).1

  -- The depth is within the texts.
  pub depth_le : s ≤ e → depth ≤ len s
  depth_le h = elim (Bool-cases (ltb (len s) depth)) [
    | inl low ↦
        let below : len s < depth = ground arith in
        absurd ((c s (len s) (omega arith) h below).1 (ok.text s (omega arith)).1)
    | inr high ↦ ground arith
  ]
