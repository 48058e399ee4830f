-- ===== src/Scan/HashString/Tests.antt =====
-- Runs on " 0aFFx", and the theorems of the siblings there.
use esq.Base.{
  ℕ, ◌+◌, ◌*◌, ◌%◌, ◌==◌, if◌then◌else◌, none, ◌≤◌, ◌≡◌, refl, inl, inr, some, List, [], ◌∷◌, ◌++◌,
  arith, length, Mem, slice, literal, done,
}
use esq.Scan.HashString.{hash_loop, get_hash_string, hash_str_2_bin}
use esq.Scan.HashString.Marked.{start_of, counted, get_hash_string-marked}
use esq.Scan.HashString.Binary.{hash_str_2_bin-hex}

abbrev one_blank : List ℕ
one_blank = b' ' ∷ []

abbrev digits : List ℕ
digits = b'0' ∷ b'a' ∷ b'F' ∷ b'F' ∷ []

abbrev mark_only : List ℕ
mark_only = b'x' ∷ []

digits_scanned : get_hash_string (one_blank ++ (digits ++ mark_only)) ≡ some (6, 1, 4)
unfolding get_hash_string hash_loop
digits_scanned = refl

-- Two blanks and a mark count as a hash string of two blanks.
blanks_scanned : get_hash_string (b' ' ∷ b' ' ∷ b'x' ∷ []) ≡ some (3, 0, 2)
unfolding get_hash_string hash_loop
blanks_scanned = refl

-- What `digits` spells.
abbrev bytes : List ℕ
bytes = 0x0a ∷ 0xff ∷ []

abbrev buffer : Mem
buffer = literal []

get_hash_string-marked_example : get_hash_string (one_blank ++ (digits ++ mark_only)) ≡ (
    if length (counted one_blank digits) % 2 == 1
    then none
    else some (
      length one_blank + length digits + 1,
      start_of one_blank digits,
      length (counted one_blank digits),
    ))
get_hash_string-marked_example =
    get_hash_string-marked one_blank digits [] b'x' (refl, tt) (refl, (refl, (refl, (refl, tt))))
      refl

hash_str_2_bin-hex_example :
    (buf' : Mem) × (hash_str_2_bin buffer (literal digits) (2 * length bytes) ≡ some (done buf'))
    × (slice buf' 0 (length bytes) ≡ bytes)
    × ((q : ℕ) → length bytes ≤ q → buf' q ≡ buffer q)
hash_str_2_bin-hex_example = hash_str_2_bin-hex bytes buffer (literal digits) (
  inl (omega arith, refl),
  inr (inl (omega arith, omega arith, refl)),
  (inr (inr (omega arith, omega arith, refl)), inr (inr (omega arith, omega arith, refl)), tt),
)
