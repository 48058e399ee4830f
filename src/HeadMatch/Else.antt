-- ===== src/HeadMatch/Else.antt =====
-- The table of the items that match where the search ends.
use esq.Base.{
  ℕ, zero, suc, ◌+◌, ◌-◌, ◌^◌, ◌<◌, ◌≤◌, ◌≡◌, ◌≢◌, refl, sym, ap, subst, ◌∙◌, inl, inr, true,
  Option, none, some, arith, leb, ◌==◌, Bool-cases, Mem,
}
use esq.HeadMatch.{Hmt, Table, byte}
use esq.HeadMatch.Compile.{index, put, agree, else_loop, hmt_find_someone_else_matched, else_rows}
use esq.HeadMatch.Index.{index_ne, put_self, put_other}

pub agree_at : (a b : Mem) (n x : ℕ) → agree a b n ≡ true → x < n → a x ≡ b x
unfolding agree
agree_at a b zero x h f = absurd (omega arith)
agree_at a b (suc n) x h f = elim (Bool-cases (x == n)) [
  | inl e ↦
      let same : x ≡ n = ground arith in
      let last : a n ≡ b n = ground (arith, h) in ap a same ∙ last ∙ ap b (sym same)
  | inr e ↦ agree_at a b n x (ground (arith, h)) (ground arith)
]

pub agree_lem : (a b : Mem) (n : ℕ) → ((x : ℕ) → x < n → a x ≡ b x) → agree a b n ≡ true
unfolding agree
agree_lem a b zero h = refl
agree_lem a b (suc n) h =
    let first_part = agree_lem a b n λ x f. h x (omega arith) in
    let last : a n ≡ b n = h n (omega arith) in ground arith

module _ (pt : Hmt) where
  -- The pattern of `k` is a prefix of that of `idx`, of at most `i` bytes.
  abbrev pub Fits : ℕ → ℕ → ℕ → Type 0
  Fits idx i k =
      (pt.patterns_length k ≤ i)
      × ((x : ℕ) → x < pt.patterns_length k → byte pt idx x ≡ byte pt k x)

  -- The first such item from `lo` on, below `hi`.
  abbrev pub FirstFit : ℕ → ℕ → ℕ → ℕ → Option ℕ → Type 0
  FirstFit idx i lo hi none = (k : ℕ) → lo ≤ k → k < hi → Fits idx i k → ⊥
  FirstFit idx i lo hi (some k) =
      (lo ≤ k) × (k < hi) × Fits idx i k × ((m : ℕ) → lo ≤ m → m < k → Fits idx i m → ⊥)

  FirstFit-skip :
      (idx i lo hi : ℕ) (r : Option ℕ)
      → (Fits idx i lo → ⊥)
      → FirstFit idx i (lo + 1) hi r
      → FirstFit idx i lo hi r
  FirstFit-skip idx i lo hi none unfit first = λ k a b f. elim (Bool-cases (k == lo)) [
    | inl e ↦ let same : k ≡ lo = ground arith in unfit (subst (Fits idx i) same f)
    | inr e ↦ first k (ground arith) b f
  ]
  FirstFit-skip idx i lo hi (some m) unfit (a, b, f, first) = (
    omega arith,
    b,
    f,
    λ k x y g. elim (Bool-cases (k == lo)) [
      | inl e ↦ let same : k ≡ lo = ground arith in unfit (subst (Fits idx i) same g)
      | inr e ↦ first k (ground arith) y g
    ],
  )

  pub else_loop-FirstFit :
      (idx i n lo hi : ℕ) → lo + n ≡ hi → FirstFit idx i lo hi (else_loop pt idx i n lo)
  unfolding else_loop
  else_loop-FirstFit idx i zero lo hi e = λ k a b f. omega arith
  else_loop-FirstFit idx i (suc n) lo hi e =
      let rest = else_loop-FirstFit idx i n (lo + 1) hi (omega arith) in
      elim (Bool-cases (leb (i + 1) (pt.patterns_length lo))) [
        | inl long ↦
            rw long (FirstFit-skip idx i lo hi _ (λ f. let short = f.0 in ground arith) rest)
        | inr short ↦
            elim (Bool-cases
              (agree (pt.items idx).pattern (pt.items lo).pattern (pt.patterns_length lo))) [
                | inl same ↦
                    rw (short, same)
                      (
                        omega arith,
                        omega arith,
                        (ground arith, λ x f. agree_at _ _ _ x same f),
                        λ m a b f. omega arith,
                      )
                | inr differ ↦
                    rw (short, differ)
                      (FirstFit-skip idx i lo hi _
                        (λ f.
                          let same =
                            agree_lem (pt.items idx).pattern (pt.items lo).pattern
                              (pt.patterns_length lo) f.1 in
                          cc (same, differ))
                        rest)
              ]
      ]

  -- The entry of an item at a depth.
  abbrev pub entry : ℕ → ℕ → Option ℕ
  entry b d = else_loop pt b d (pt.cnt - (b + 1)) (b + 1)

  row_entry :
      (idx n : ℕ) (table : Table) (d : ℕ)
      → n ≤ 2 ^ pt.pattern_len_max_shift
      → d < n
      → hmt_find_someone_else_matched pt idx n table (index pt idx d) ≡ entry idx d
  unfolding hmt_find_someone_else_matched
  row_entry idx zero table d h f = absurd (omega arith)
  row_entry idx (suc n) table d h f = elim (Bool-cases (d == n)) [
    | inl e ↦
        let same : d ≡ n = ground arith in
        subst
          (λ m.
            put (hmt_find_someone_else_matched pt idx n table) (index pt idx n) (entry idx n)
              (index pt idx m)
            ≡ entry idx m)
          (sym same)
          (put_self (hmt_find_someone_else_matched pt idx n table) (index pt idx n) (entry idx n))
    | inr e ↦
        let other : d ≢ n = ground arith in
        put_other (hmt_find_someone_else_matched pt idx n table) (index pt idx n) (index pt idx d)
          (entry idx n) (index_ne pt idx idx d n (omega arith) (omega arith) (inr other))
        ∙ row_entry idx n table d (omega arith) (ground arith)
  ]

  row_other :
      (idx n : ℕ) (table : Table) (b d : ℕ)
      → n ≤ 2 ^ pt.pattern_len_max_shift
      → d < 2 ^ pt.pattern_len_max_shift
      → b ≢ idx
      → hmt_find_someone_else_matched pt idx n table (index pt b d) ≡ table (index pt b d)
  unfolding hmt_find_someone_else_matched
  row_other idx zero table b d h f ne = refl
  row_other idx (suc n) table b d h f ne =
      put_other (hmt_find_someone_else_matched pt idx n table) (index pt idx n) (index pt b d)
        (entry idx n) (index_ne pt b idx d n f (omega arith) (inl ne))
      ∙ row_other idx n table b d (omega arith) f ne

  pub rows_entry :
      (n : ℕ) (table : Table) (b d : ℕ)
      → ((i : ℕ) → i < n → pt.patterns_length i ≤ 2 ^ pt.pattern_len_max_shift)
      → b < n
      → d < pt.patterns_length b
      → else_rows pt n table (index pt b d) ≡ entry b d
  unfolding else_rows
  rows_entry zero table b d h f g = absurd (omega arith)
  rows_entry (suc n) table b d h f g = elim (Bool-cases (b == n)) [
    | inl e ↦
        let same : b ≡ n = ground arith in
        let at : d < pt.patterns_length n = subst (λ k. d < pt.patterns_length k) same g in
        subst
          (λ k.
            hmt_find_someone_else_matched pt n (pt.patterns_length n) (else_rows pt n table)
              (index pt k d)
            ≡ entry k d)
          (sym same)
          (row_entry n (pt.patterns_length n) (else_rows pt n table) d (h n (omega arith)) at)
    | inr e ↦
        let other : b ≢ n = ground arith in
        row_other n (pt.patterns_length n) (else_rows pt n table) b d (h n (omega arith))
          (let own = h b (omega arith) in omega arith) other
        ∙ rows_entry n table b d (λ i x. h i (omega arith)) (ground arith) g
  ]
