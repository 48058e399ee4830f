-- ===== src/DoubleList/Tests.antt =====
-- The middle one of three nodes leaves.
use esq.Base.{refl, [], ◌∷◌, arith, ◌==◌, if◌then◌else◌}
use esq.DoubleList.{Links, IsLinked}
use esq.DoubleList.Left.{double_ll_left, double_ll_left-IsLinked}

abbrev three_links : Links
three_links = record {
  prev = λ q. if q == 5 then 4 else if q == 6 then 5 else 0;
  next = λ q. if q == 4 then 5 else if q == 5 then 6 else 0;
  head = 4;
  tail = 6;
}

three_links-IsLinked : IsLinked three_links (4 ∷ 5 ∷ 6 ∷ [])
three_links-IsLinked = (
  (refl, omega arith, refl, (refl, omega arith, refl, (refl, omega arith, refl, (refl, refl)))),
  (refl, (refl, (refl, tt))),
)

double_ll_left-IsLinked_example : IsLinked (double_ll_left three_links 5) (4 ∷ 6 ∷ [])
double_ll_left-IsLinked_example =
    double_ll_left-IsLinked three_links 5 (4 ∷ []) (6 ∷ []) three_links-IsLinked
