-- ===== src/Base/Int.antt =====
-- Signed integers, and the `int` of C with 32 bits.
use Prim.Native.Nat.{ℕ, ◌+◌, ◌-◌, ◌%◌, ◌^◌, ◌<◌}
use mathlib.Core.Bool.{Bool, true, false}
use mathlib.Core.Path.{◌≡◌, refl}
use native.Mathlib.Omega.{arith}
use esq.Base.Tests.{ltb, ◌==◌, if◌then◌else◌}

-- `negsuc n` is -(n + 1).
pub data ℤ : Type 0 where
  pos : ℕ → ℤ
  negsuc : ℕ → ℤ

abbrev pub ltb_ℤ : ℤ → ℤ → Bool
ltb_ℤ (pos m) (pos n) = ltb m n
ltb_ℤ (pos m) (negsuc n) = false
ltb_ℤ (negsuc m) (pos n) = true
ltb_ℤ (negsuc m) (negsuc n) = ltb n m

abbrev pub eqb_ℤ : ℤ → ℤ → Bool
eqb_ℤ (pos m) (pos n) = m == n
eqb_ℤ (pos m) (negsuc n) = false
eqb_ℤ (negsuc m) (pos n) = false
eqb_ℤ (negsuc m) (negsuc n) = m == n

-- What 32 bits, read without a sign, are as an `int`.
abbrev signed : ℕ → ℤ
signed m = if ltb m (2 ^ 31) then pos m else negsuc (2 ^ 32 - 1 - m)

-- The 32 low bits of an integer.
abbrev low_bits : ℤ → ℕ
low_bits (pos n) = n % 2 ^ 32
low_bits (negsuc n) = 2 ^ 32 - 1 - n % 2 ^ 32

-- The conversion to `int`, and the sum of two of them. C leaves it open what a sum is that does not
-- fit; here it wraps around, as it does on machines with two's complement.
unfoldable pub to_int : ℤ → ℤ
to_int a = signed (low_bits a)

unfoldable pub add_int : ℤ → ℤ → ℤ
add_int a b = signed ((low_bits a + low_bits b) % 2 ^ 32)

-- A number that fits is kept.
pub to_int_fits : (a : ℕ) → a < 2 ^ 31 → to_int (pos a) ≡ pos a
unfolding to_int
to_int_fits a h =
    let e : a % 2 ^ 32 ≡ a = omega arith in
    let t : ltb a (2 ^ 31) ≡ true = ground arith in rw e (rw t refl)

-- A sum that fits is the sum.
pub add_int_fits : (a b : ℕ) → a + b < 2 ^ 31 → add_int (pos a) (pos b) ≡ pos (a + b)
unfolding add_int
add_int_fits a b h =
    let e : (a % 2 ^ 32 + b % 2 ^ 32) % 2 ^ 32 ≡ a + b = omega arith in
    let t : ltb (a + b) (2 ^ 31) ≡ true = ground arith in rw e (rw t refl)
