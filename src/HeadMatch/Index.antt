-- ===== src/HeadMatch/Index.antt =====
-- The places of the entries of a table.
use esq.Base.{
  ℕ, zero, suc, ◌+◌, ◌*◌, ◌^◌, ◌<◌, ◌≡◌, ◌≢◌, ◌⊎◌, refl, ap, inl, inr, true, false, Option, arith,
  ◌==◌, ltb, Bool-cases,
}
use native.Mathlib.Nat.{suc-mul}
use esq.HeadMatch.{Hmt, Table}
use esq.HeadMatch.Compile.{index, put}

row_below : (b c l d e : ℕ) → b < c → d < l → b * l + d < c * l + e
row_below b zero l d e h f = absurd (omega arith)
row_below b (suc c) l d e h f = elim (Bool-cases (b == c)) [
  | inl at ↦
      let same : b ≡ c = ground arith in
      let row : b * l ≡ c * l = ap (λ k. k * l) same in omega (arith, suc-mul c l, row)
  | inr ne ↦
      let below : b < c = ground arith in omega (arith, suc-mul c l, row_below b c l d e below f)
]

rows_ne :
    (pt : Hmt) (b c d e : ℕ)
    → d < 2 ^ pt.pattern_len_max_shift
    → e < 2 ^ pt.pattern_len_max_shift
    → b ≢ c
    → index pt b d ≢ index pt c e
rows_ne pt b c d e f g ne h = elim (Bool-cases (ltb b c)) [
  | inl e1 ↦
      let below : b < c = ground arith in
      absurd (omega (arith, h, row_below b c (2 ^ pt.pattern_len_max_shift) d e below f))
  | inr e1 ↦
      let below : c < b = ground arith in
      absurd (omega (arith, h, row_below c b (2 ^ pt.pattern_len_max_shift) e d below g))
]

pub index_ne :
    (pt : Hmt) (b c d e : ℕ)
    → d < 2 ^ pt.pattern_len_max_shift
    → e < 2 ^ pt.pattern_len_max_shift
    → (b ≢ c) ⊎ (d ≢ e)
    → index pt b d ≢ index pt c e
index_ne pt b c d e f g (inl ne) h = rows_ne pt b c d e f g ne h
index_ne pt b c d e f g (inr ne) h = elim (Bool-cases (b == c)) [
  | inl e1 ↦
      let same : b ≡ c = ground arith in
      let row : b * 2 ^ pt.pattern_len_max_shift ≡ c * 2 ^ pt.pattern_len_max_shift =
        ap (λ k. k * 2 ^ pt.pattern_len_max_shift) same in
      ne (omega (arith, h, row))
  | inr e1 ↦ let other : b ≢ c = ground arith in rows_ne pt b c d e f g other h
]

pub put_self : (table : Table) (i : ℕ) (v : Option ℕ) → put table i v i ≡ v
unfolding put
put_self table i v = let same : (i == i) ≡ true = ground arith in rw same refl

pub put_other : (table : Table) (i j : ℕ) (v : Option ℕ) → j ≢ i → put table i v j ≡ table j
unfolding put
put_other table i j v h = let other : (j == i) ≡ false = ground arith in rw other refl
