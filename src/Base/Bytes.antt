-- ===== src/Base/Bytes.antt =====
-- Sets of bytes, decided for all 256 values by evaluation.
use Prim.Native.Nat.{ℕ, zero, suc, ◌<◌}
use mathlib.Core.Path.{◌≡◌}
use mathlib.Core.Bool.{Bool, true, false, ◌&&◌}
use native.Mathlib.Omega.{arith}
use esq.Base.Tests.{leb, if◌then◌else◌}

-- lo <= c && c <= hi
abbrev pub within : ℕ → ℕ → ℕ → Bool
within lo hi c = leb lo c && leb c hi

-- A table of the values of a test at 0, ..., `top - 1`, as one Boolean.
unfoldable pub table_holds : (ℕ → Bool) → ℕ → Bool
table_holds test zero = true
table_holds test (suc c) = let before = table_holds test c in if test c then before else false

pub table_holds-at :
    (test : ℕ → Bool) (c top : ℕ) → c < top → table_holds test top ≡ true → test c ≡ true
unfolding table_holds
table_holds-at test c zero under table = absurd (omega arith)
table_holds-at test c (suc top) under table =
    let earlier =
      λ (k : c < top) (t : table_holds test top ≡ true). table_holds-at test c top k t in
    ground (arith, earlier)
