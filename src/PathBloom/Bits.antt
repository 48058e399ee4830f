-- ===== src/PathBloom/Bits.antt =====
-- One bit map: what setting a bit does to the tests of all bits.
use esq.Base.{
  ℕ, ◌/◌, ◌%◌, ◌^◌, ◌<◌, ◌≡◌, refl, inl, inr, Bool, true, not, ◌&&◌, ◌||◌, bit_and, bit_or, arith,
  ltb, ◌==◌, Bool-cases, Mem, store, store_self, store_ne, table_holds, table_holds-at,
}
use esq.PathBloom.{set_bit, has_bit}

-- The cells of a map stay below 16, since the code sets only the four low bits of a byte.
abbrev pub IsMap : Mem → Type 0
IsMap bitmap = (q : ℕ) → bitmap q < 16

abbrev cell_test : ℕ → ℕ → ℕ → Bool
cell_test a k j =
    ltb (bit_or a (2 ^ k)) 16
    && not (bit_and (bit_or a (2 ^ k)) (2 ^ k) == 0)
    && (bit_and a (2 ^ j) == 0 || not (bit_and (bit_or a (2 ^ k)) (2 ^ j) == 0))

cell_table : table_holds (λ a. table_holds (λ k. table_holds (cell_test a k) 4) 4) 16 ≡ true
unfolding table_holds
cell_table = refl

cell : (a k j : ℕ) → a < 16 → k < 4 → j < 4 → cell_test a k j ≡ true
cell a k j ha hk hj = table_holds-at (cell_test a k) j 4 hj (
    table_holds-at (λ k. table_holds (cell_test a k) 4) k 4 hk
      (table_holds-at (λ a. table_holds (λ k. table_holds (cell_test a k) 4) 4) a 16 ha cell_table))

module _ (bitmap : Mem) (ok : IsMap bitmap) (hash : ℕ) where
  pub set_bit-IsMap : IsMap (set_bit bitmap hash)
  unfolding set_bit store
  set_bit-IsMap q =
      let c = cell (bitmap (hash / 8)) (hash % 4) 0 (ok _) (omega arith) (omega arith) in
      let old : bitmap q < 16 = ok q in ground arith

  pub has_bit-set_bit : has_bit (set_bit bitmap hash) hash ≡ true
  unfolding set_bit has_bit
  has_bit-set_bit =
      let c = cell (bitmap (hash / 8)) (hash % 4) 0 (ok _) (omega arith) (omega arith) in
      rw store_self (ground arith)

  pub has_bit-set_bit_other :
      (other : ℕ) → has_bit bitmap other ≡ true → has_bit (set_bit bitmap hash) other ≡ true
  unfolding set_bit has_bit
  has_bit-set_bit_other other h = elim (Bool-cases (other / 8 == hash / 8)) [
    | inl same ↦
        let e : other / 8 ≡ hash / 8 = ground arith in
        let c =
          cell (bitmap (hash / 8)) (hash % 4) (other % 4) (ok _) (omega arith) (omega arith) in
        let old = rw e at h in rw (e, store_self bitmap (hash / 8) _) (ground arith)
    | inr apart ↦ rw (store_ne bitmap (hash / 8) _ (other / 8) (ground arith)) h
  ]
