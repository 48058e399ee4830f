-- ===== src/SafePath/Tests.antt =====
-- Runs on "a.b/c", "../x" and a name with a letter behind a dot, and the theorems of the siblings
-- there.
use esq.Base.{ℕ, ◌<◌, ◌≡◌, ◌≢◌, refl, Bool, true, false, [], ◌∷◌, All, Mem, slice, literal, done}
use esq.Slash.Components.{components}
use esq.Utf8.{following, get_code_from_utf8}
use esq.SafePath.{h2esq_path_safe_table, safe_loop, path_is_very_safe}
use esq.SafePath.Sound.{IsSafeName, path_is_very_safe-IsSafeName}
use esq.SafePath.Total.{path_is_very_safe-returns}

abbrev plain : Mem
plain = literal (b'a' ∷ b'.' ∷ b'b' ∷ b'/' ∷ b'c' ∷ [])

plain_accepted : path_is_very_safe plain ≡ done true
unfolding path_is_very_safe safe_loop h2esq_path_safe_table get_code_from_utf8 following
plain_accepted = refl

parent_refused : path_is_very_safe (literal (b'.' ∷ b'.' ∷ b'/' ∷ b'x' ∷ [])) ≡ done false
unfolding path_is_very_safe safe_loop h2esq_path_safe_table get_code_from_utf8 following
parent_refused = refl

-- The flag of the dot stays set over a longer UTF-8 sequence: the name "a.é" counts as one that ends
-- with a dot.
letter_behind_dot_refused :
    path_is_very_safe (literal (b'a' ∷ b'.' ∷ 0xc3 ∷ 0xa9 ∷ [])) ≡ done false
unfolding path_is_very_safe safe_loop h2esq_path_safe_table get_code_from_utf8 following
letter_behind_dot_refused = refl

path_is_very_safe-IsSafeName_example :
    (n : ℕ) × (plain n ≡ 0)
    × All (λ c. c ≢ 0) (slice plain 0 n)
    × (n < 2048)
    × (plain 0 ≢ b'/')
    × All IsSafeName (components (slice plain 0 n))
path_is_very_safe-IsSafeName_example = path_is_very_safe-IsSafeName plain plain_accepted

path_is_very_safe-returns_example : (r : Bool) × (path_is_very_safe plain ≡ done r)
path_is_very_safe-returns_example = path_is_very_safe-returns plain
