-- ===== src/HeadMatch/Keeps.antt =====
-- An item more at its place keeps the order of the patterns.
use esq.Base.{
  ℕ, zero, suc, ◌+◌, ◌-◌, ◌<◌, ◌≤◌, ◌≡◌, ◌≢◌, ◌⊎◌, refl, sym, subst, inl, inr, Option, none, some,
  arith, ltb, ◌==◌, Bool-cases, Mem, strnlen,
}
use esq.HeadMatch.{Item, Hmt, byte, Compared, lower, same, higher, strncmp, place_loop, inserted}
use esq.HeadMatch.Order.{Before, IsText, IsMatcher}
use esq.HeadMatch.Compiled.{length_of}
use esq.HeadMatch.Insert.{strnlen_before, strnlen_at, Finds, strncmp-Finds, Before-trans}

module _ (pt : Hmt) (ok : IsMatcher pt (length_of pt)) (pattern : Mem) where
  -- Where the pattern is to stand: behind the items from `lo` on that are before it. Or it is there.
  abbrev pub Place : ℕ → Option ℕ → Type 0
  Place lo none =
      (i : ℕ) × (i < pt.cnt)
      × ((x : ℕ)
          → x < pt.pattern_len_max
          → ((y : ℕ) → y < x → pattern y ≢ 0)
          → pattern x ≡ byte pt i x)
  Place lo (some i) =
      (lo ≤ i)
      × (i ≤ pt.cnt)
      × ((k : ℕ) → lo ≤ k → k < i → Before (pt.items k).pattern pattern)
      × ((k : ℕ) → i ≤ k → k < pt.cnt → Before pattern (pt.items k).pattern)

  pub place_loop-Place : (n lo : ℕ) → lo + n ≡ pt.cnt → Place lo (place_loop pt pattern n lo)
  unfolding place_loop
  place_loop-Place zero lo e =
      (omega arith, omega arith, (λ k a b. absurd (omega arith)), λ k a b. absurd (omega arith))
  place_loop-Place (suc n) lo e =
      by_order (strncmp pattern (pt.items lo).pattern pt.pattern_len_max) refl
        (strncmp-Finds pattern (pt.items lo).pattern pt.pattern_len_max)
        (place_loop pt pattern n (lo + 1)) (place_loop-Place n (lo + 1) (omega arith))
    where
      by_order :
          (c : Compared)
          → strncmp pattern (pt.items lo).pattern pt.pattern_len_max ≡ c
          → Finds pattern (pt.items lo).pattern pt.pattern_len_max c
          → (rest : Option ℕ) → Place (lo + 1) rest
          → Place lo (elim c [ higher ↦ some lo | lower ↦ rest | same ↦ none ])
      by_order higher h f rest p = (
        omega arith,
        omega arith,
        (λ k a b. absurd (omega arith)),
        λ k a b. elim (Bool-cases (k == lo)) [
          | inl at ↦
              let eq : k ≡ lo = ground arith in
              subst (λ i. Before pattern (pt.items i).pattern) (sym eq) f
          | inr ne ↦
              Before-trans pattern (pt.items lo).pattern (pt.items k).pattern f
                (ok.sorted lo k (ground arith) b)
        ],
      )
      by_order same h f rest p = (lo, omega arith, f)
      by_order lower h f none p = p
      by_order lower h f (some i) (a, b, before, after) = (
        omega arith,
        b,
        (λ k x y. elim (Bool-cases (k == lo)) [
          | inl at ↦
              let eq : k ≡ lo = ground arith in
              subst (λ i. Before (pt.items i).pattern pattern) (sym eq) f
          | inr ne ↦ before k (ground arith) y
        ]),
        after,
      )

  module _ (k : Item) (own : k.pattern ≡ pattern)
      (len_ok : strnlen pattern pt.pattern_len_max < pt.pattern_len_max)
      (ascii : (x : ℕ) → x < strnlen pattern pt.pattern_len_max → pattern x < 128) where
    -- The matcher with the pattern at `i`.
    abbrev pub with_item : ℕ → Hmt
    with_item i = record pt { items = inserted pt.items i k; cnt = pt.cnt + 1 }

    Where : ℕ → ℕ → Type 0
    Where i q =
        ((q < i) × (inserted pt.items i k q ≡ pt.items q))
        ⊎ ((q ≡ i) × (inserted pt.items i k q ≡ k))
        ⊎ ((i < q) × (inserted pt.items i k q ≡ pt.items (q - 1)))

    item_at : (i q : ℕ) → Where i q
    unfolding inserted Where
    item_at i q = elim (Bool-cases (ltb q i)) [
      | inl low ↦ inl (ground arith, rw low refl)
      | inr high ↦ elim (Bool-cases (q == i)) [
        | inl at ↦ inr (inl (ground arith, rw (high, at) refl))
        | inr ne ↦ inr (inr (ground arith, rw (high, ne) refl))
      ]
    ]

    -- The texts.
    abbrev TextItem : Item → Type 0
    TextItem m =
        IsText m.pattern (strnlen m.pattern pt.pattern_len_max)
        × (strnlen m.pattern pt.pattern_len_max < pt.pattern_len_max)

    own_text : TextItem k
    own_text = rw own (
      (
        (λ x h. (strnlen_before pattern pt.pattern_len_max x h, ascii x h)),
        strnlen_at pattern pt.pattern_len_max len_ok,
      ),
      len_ok,
    )

    text_at : (i q : ℕ) → i ≤ pt.cnt → q < pt.cnt + 1 → TextItem (inserted pt.items i k q)
    unfolding Where
    text_at i q b h = elim (item_at i q) [
      | inl (low, e) ↦ subst TextItem (sym e) (ok.text q (omega arith), ok.short q (omega arith))
      | inr (inl (at, e)) ↦ subst TextItem (sym e) own_text
      | inr (inr (above, e)) ↦
          subst TextItem (sym e) (ok.text (q - 1) (omega arith), ok.short (q - 1) (omega arith))
    ]

    abbrev BeforeItem : Item → Item → Type 0
    BeforeItem m n = Before m.pattern n.pattern

    sorted_at :
        (i p q : ℕ)
        → Place 0 (some i)
        → p < q
        → q < pt.cnt + 1
        → BeforeItem (inserted pt.items i k p) (inserted pt.items i k q)
    unfolding Where
    sorted_at i p q (a, b, before, after) h f = elim (item_at i p) [
      | inl (plow, pe) ↦
          subst (λ m. BeforeItem m (inserted pt.items i k q)) (sym pe)
            (elim (item_at i q) [
              | inl (low, e) ↦
                  subst (BeforeItem (pt.items p)) (sym e) (ok.sorted p q h (omega arith))
              | inr (inl (at, e)) ↦ subst (BeforeItem (pt.items p)) (sym e) (
                  subst (λ t. Before (pt.items p).pattern t) (sym own)
                    (before p (omega arith) plow))
              | inr (inr (above, e)) ↦
                  subst (BeforeItem (pt.items p)) (sym e)
                    (ok.sorted p (q - 1) (omega arith) (omega arith))
            ])
      | inr (inl (pat, pe)) ↦
          subst (λ m. BeforeItem m (inserted pt.items i k q)) (sym pe)
            (elim (item_at i q) [
              | inl (low, e) ↦ absurd (omega arith)
              | inr (inl (at, e)) ↦ absurd (omega arith)
              | inr (inr (above, e)) ↦ subst (BeforeItem k) (sym e) (
                  subst (λ t. Before t (pt.items (q - 1)).pattern) (sym own)
                    (after (q - 1) (omega arith) (omega arith)))
            ])
      | inr (inr (pabove, pe)) ↦
          subst (λ m. BeforeItem m (inserted pt.items i k q)) (sym pe)
            (elim (item_at i q) [
              | inl (low, e) ↦ absurd (omega arith)
              | inr (inl (at, e)) ↦ absurd (omega arith)
              | inr (inr (above, e)) ↦
                  subst (BeforeItem (pt.items (p - 1))) (sym e)
                    (ok.sorted (p - 1) (q - 1) (omega arith) (omega arith))
            ])
    ]

    pub with_item-IsMatcher :
        (i : ℕ) → Place 0 (some i) → IsMatcher (with_item i) (length_of (with_item i))
    with_item-IsMatcher i place = record {
      size = ok.size;
      text = λ q h. (text_at i q place.1 h).0;
      short = λ q h. (text_at i q place.1 h).1;
      sorted = λ p q h f. sorted_at i p q place h f;
    }
