-- ===== src/HeadMatch/Longest.antt =====
-- `hmt_match` finds the longest pattern that is a prefix.
use esq.Base.{
  ℕ, ◌+◌, ◌-◌, ◌<◌, ◌≤◌, ◌≡◌, refl, sym, ap, ◌∙◌, inl, inr, Option, none, some, arith, ltb, ◌==◌,
  Bool-cases, Mem,
}
use esq.HeadMatch.{Hmt, byte}
use esq.HeadMatch.Order.{IsMatcher}
use esq.HeadMatch.Else.{Fits, FirstFit, entry, else_loop-FirstFit}

-- The pattern of `k` is a prefix of the string.
abbrev pub Prefix : Hmt → (ℕ → ℕ) → Mem → ℕ → Type 0
Prefix pt len string k = (x : ℕ) → x < len k → string x ≡ byte pt k x

-- The item with the longest pattern that is a prefix of the string, if there is one.
abbrev pub Longest : Hmt → (ℕ → ℕ) → Mem → Option ℕ → Type 0
Longest pt len string none = (k : ℕ) → k < pt.cnt → Prefix pt len string k → ⊥
Longest pt len string (some k) =
    (k < pt.cnt)
    × Prefix pt len string k
    × ((m : ℕ) → m < pt.cnt → Prefix pt len string m → len m ≤ len k)

module _ (pt : Hmt) (ok : IsMatcher pt pt.patterns_length) where
  abbrev pub len : ℕ → ℕ
  len = pt.patterns_length

  -- Of two prefixes of a text, the later one is not longer.
  prefix_order :
      (t : Mem) (i j : ℕ)
      → i < j
      → j < pt.cnt
      → Prefix pt len t i
      → Prefix pt len t j
      → len j ≤ len i
  prefix_order t i j a b p q = elim (Bool-cases (ltb (len i) (len j))) [
    | inr fits ↦ ground arith
    | inl longer ↦
        let (d, agree, less) = ok.sorted i j a b in
        let over : len i < len j = ground arith in
        elim (Bool-cases (ltb d (len i))) [
          | inl low ↦
              let below : d < len i = ground arith in
              let same : byte pt i d ≡ byte pt j d = sym (p d below) ∙ q d (omega arith) in
              absurd (omega (arith, same, less))
          | inr high ↦ elim (Bool-cases (d == len i)) [
            | inl at ↦
                let same : d ≡ len i = ground arith in
                let end : byte pt i d ≡ 0 = ap (byte pt i) same ∙ (ok.text i (omega arith)).1 in
                absurd (omega (arith, end, less))
            | inr ne ↦ absurd ((agree (len i) (ground arith)).1 (ok.text i (omega arith)).1)
          ]
        ]
  ]

  module _ (string : Mem) (r depth : ℕ) (inside : r < pt.cnt) (deep : depth < len r)
      (along : (x : ℕ) → x < depth → string x ≡ byte pt r x)
      (short : (k : ℕ) → k < pt.cnt → Prefix pt len string k → len k ≤ depth) where
    -- Where no longer prefix is left, a prefix of the string fits the item that was reached.
    fits : (k : ℕ) → k < pt.cnt → Prefix pt len string k → (r < k) × Fits pt r depth k
    fits k b p =
        let low = short k b p in
        let same : (x : ℕ) → x < len k → byte pt r x ≡ byte pt k x =
          λ x f. sym (along x (omega arith)) ∙ p x f in
        (
          elim (Bool-cases (ltb r k)) [
            | inl above ↦ ground arith
            | inr below ↦ elim (Bool-cases (k == r)) [
              | inl at ↦
                  let eq : k ≡ r = ground arith in
                  let lens : len k ≡ len r = ap len eq in absurd (omega arith)
              | inr ne ↦ absurd (
                  omega (
                    arith,
                    prefix_order (pt.items r).pattern k r (ground arith) inside same (λ x f. refl),
                  ))
            ]
          ],
          (low, same),
        )

    stuck : (res : Option ℕ) → FirstFit pt r depth (r + 1) pt.cnt res → Longest pt len string res
    stuck none first = λ k b p. let (above, fit) = fits k b p in first k (omega arith) b fit
    stuck (some k) (a, b, (low, same), first) = (
      b,
      (λ x f. along x (omega arith) ∙ same x f),
      λ m c p.
          let (above, (lowm, samem)) = fits m c p in
          elim (Bool-cases (ltb m k)) [
            | inl less ↦ absurd (first m (omega arith) (ground arith) (lowm, samem))
            | inr more ↦ elim (Bool-cases (m == k)) [
              | inl at ↦
                  let eq : m ≡ k = ground arith in
                  let lens : len m ≡ len k = ap len eq in omega arith
              | inr ne ↦ prefix_order (pt.items r).pattern k m (ground arith) c same samem
            ]
          ],
    )

    pub stuck_entry : Longest pt len string (entry pt r depth)
    stuck_entry =
        stuck (entry pt r depth)
          (else_loop-FirstFit pt r depth (pt.cnt - (r + 1)) (r + 1) pt.cnt (omega arith))
