-- ===== src/Scan/Integer/Tests.antt =====
-- Runs on " 42 x", and the theorem on numbers there.
use esq.Base.{ℕ, ◌≡◌, ◌↔◌, refl, none, some, List, [], ◌∷◌}
use esq.Scan.Integer.{integer_loop, get_integer_1000000}
use esq.Scan.Integer.Sound.{NumberAt, get_integer_1000000-NumberAt}

abbrev answer : List ℕ
answer = b' ' ∷ b'4' ∷ b'2' ∷ b' ' ∷ b'x' ∷ []

answer_scanned : get_integer_1000000 answer ≡ some (3, 42)
unfolding get_integer_1000000 integer_loop
answer_scanned = refl

glued_refused : get_integer_1000000 (b'4' ∷ b'x' ∷ []) ≡ none
unfolding get_integer_1000000 integer_loop
glued_refused = refl

get_integer_1000000-NumberAt_example :
    (get_integer_1000000 answer ≡ some (3, 42)) ↔ NumberAt answer 3 42
get_integer_1000000-NumberAt_example = get_integer_1000000-NumberAt answer 3 42
