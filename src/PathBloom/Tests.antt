-- ===== src/PathBloom/Tests.antt =====
-- Two paths in a filter, and the theorems of the siblings there.
use esq.Base.{ℕ, ◌≡◌, refl, inl, inr, true, some, List, [], ◌∷◌}
use esq.PathBloom.{
  Filter, new_filter, path_bloom_filter_new, with_bits, add_path, path_bloom_filter_add_path2,
  path_bloom_filter_check_exist2, path_bloom_hash1, hash1_loop,
}
use esq.PathBloom.Members.{
  Holds, holds_new, holds_add2, IsFilter, path_bloom_filter_check_exist2-Member, Holds-IsFilter,
}

abbrev first : List ℕ
first = b'/' ∷ b'a' ∷ []

abbrev second : List ℕ
second = b'/' ∷ b'b' ∷ b'/' ∷ 0xc3 ∷ 0xa9 ∷ []

abbrev one : Filter
one = with_bits new_filter first

abbrev two : Filter
two = with_bits one second

add_first : path_bloom_filter_add_path2 (some new_filter) (some first) ≡ some one
unfolding path_bloom_filter_add_path2 add_path
add_first = refl

add_second : path_bloom_filter_add_path2 (some one) (some second) ≡ some two
unfolding path_bloom_filter_add_path2 add_path with_bits
add_second = refl

second_hashes : path_bloom_hash1 second ≡ 3406
unfolding path_bloom_hash1 hash1_loop
second_hashes = refl

Holds-two : Holds two (second ∷ first ∷ [])
unfolding path_bloom_filter_new
Holds-two =
    holds_add2 one two second (first ∷ [])
      (holds_add2 new_filter one first [] (holds_new new_filter refl) add_first) add_second

path_bloom_filter_check_exist2-Member_example :
    path_bloom_filter_check_exist2 (some two) (some first) ≡ true
path_bloom_filter_check_exist2-Member_example =
    path_bloom_filter_check_exist2-Member two (second ∷ first ∷ []) first Holds-two (inr (inl refl))

Holds-IsFilter_example : IsFilter two
Holds-IsFilter_example = Holds-IsFilter two (second ∷ first ∷ []) Holds-two
