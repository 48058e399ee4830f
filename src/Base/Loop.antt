-- ===== src/Base/Loop.antt =====
-- The result of a loop on fuel, and its `do` blocks.
pub data Run {ℓ} (A : Type ℓ) : Type ℓ where
  done : A → Run A
  out_of_fuel : Run A

module _ {ℓ κ} {A : Type ℓ} {B : Type κ} where
  infixl 5 ◌>>=◌
  abbrev pub ◌>>=◌ : Run A → (A → Run B) → Run B
  done a >>= k = k a
  out_of_fuel >>= k = out_of_fuel
