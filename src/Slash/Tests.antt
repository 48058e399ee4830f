-- ===== src/Slash/Tests.antt =====
-- Runs on "a//b/", and the theorems of the siblings there.
use esq.Base.{
  ℕ, ◌+◌, ◌≡◌, ◌≢◌, refl, false, Option, some, [], ◌∷◌, arith, length, All, Mem, slice, literal,
  done,
}
use esq.Slash.{find_last_slash, find_last_slash2, find_last_slash2_loop, remove_redundancy_slash}
use esq.Slash.Squeeze.{squeeze, remove_redundancy_slash-squeeze}
use esq.Slash.Components.{
  components, remove_redundancy_slash-components, remove_redundancy_slash-remove_redundancy_slash,
}
use esq.Slash.FindLast.{IsLastSlash, find_last_slash-IsLastSlash, find_last_slash2-IsLastSlash}

abbrev path : Mem
path = literal (b'a' ∷ b'/' ∷ b'\\' ∷ b'b' ∷ b'/' ∷ [])

path_nonzero : All (λ c. c ≢ 0) (slice path 0 5)
path_nonzero = (omega arith, (omega arith, (omega arith, (omega arith, (omega arith, tt)))))

squeezed : squeeze false (slice path 0 5) ≡ b'a' ∷ b'/' ∷ b'b' ∷ []
unfolding squeeze
squeezed = refl

remove_redundancy_slash-squeeze_example :
    (b' : Mem) × (remove_redundancy_slash 6 path
      ≡ done (length (squeeze false (slice path 0 5)), b'))
    × (slice b' 0 (length (squeeze false (slice path 0 5))) ≡ squeeze false (slice path 0 5))
    × (b' (length (squeeze false (slice path 0 5))) ≡ 0)
remove_redundancy_slash-squeeze_example =
    remove_redundancy_slash-squeeze 6 5 path path_nonzero refl (omega arith)

remove_redundancy_slash-components_example :
    (r : ℕ) × (b' : Mem) × (remove_redundancy_slash 6 path ≡ done (r, b'))
    × (components (slice b' 0 r) ≡ components (slice path 0 5))
    × (b' r ≡ 0)
remove_redundancy_slash-components_example =
    remove_redundancy_slash-components 6 5 path path_nonzero refl (omega arith)

remove_redundancy_slash_twice_example :
    (r : ℕ) × (b' b'' : Mem) × (remove_redundancy_slash 6 path ≡ done (r, b'))
    × (remove_redundancy_slash (r + 1) b' ≡ done (r, b''))
    × (slice b'' 0 r ≡ slice b' 0 r)
remove_redundancy_slash_twice_example =
    remove_redundancy_slash-remove_redundancy_slash 6 5 path path_nonzero refl (omega arith)

find_last_slash2_four : find_last_slash2 path 4 ≡ some 2
unfolding find_last_slash2
find_last_slash2_four = unfold find_last_slash2_loop in refl

find_last_slash2-IsLastSlash_example : IsLastSlash (slice path 0 4) (find_last_slash2 path 4)
find_last_slash2-IsLastSlash_example = find_last_slash2-IsLastSlash path 4

find_last_slash-IsLastSlash_example :
    (r : Option ℕ) × (find_last_slash 6 path ≡ done r) × IsLastSlash (slice path 0 5) r
find_last_slash-IsLastSlash_example =
    find_last_slash-IsLastSlash 6 5 path path_nonzero refl (omega arith)
