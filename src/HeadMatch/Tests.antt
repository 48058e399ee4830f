-- ===== src/HeadMatch/Tests.antt =====
-- A matcher with the patterns "/a" and "/".
use esq.Base.{
  ℕ, zero, suc, ◌<◌, ◌≡◌, ◌≢◌, refl, true, Option, none, some, [], ◌∷◌, arith, Mem, literal,
  strnlen, Run, done, out_of_fuel,
}
use esq.HeadMatch.{Item, Hmt, hmt_add}
use esq.HeadMatch.Compile.{hmt_compile}
use esq.HeadMatch.Match.{hmt_match}
use esq.HeadMatch.Order.{Before, IsText, IsMatcher}
use esq.HeadMatch.Longest.{Longest}
use esq.HeadMatch.Compiled.{length_of, found, hmt_compile-Longest}
use esq.HeadMatch.Adding.{Adds, hmt_add-Adds}

abbrev two_items : ℕ → Item
two_items zero = record { pattern = literal (b'/' ∷ b'a' ∷ []); userdata = 7; malloc_item = 0 }
two_items (suc i) = record { pattern = literal (b'/' ∷ []); userdata = 8; malloc_item = 0 }

abbrev two_patterns : Hmt
two_patterns = record {
  max = 5;
  cnt = 2;
  enter_point = none;
  higher_jump_table = λ i. none;
  lower_jump_table = λ i. none;
  someone_else_matched_table = λ i. none;
  next_level_enter_point_table = λ i. none;
  patterns_length = λ i. 0;
  pattern_len_max = 16;
  pattern_len_max_shift = 4;
  items = two_items;
}

slash_a :
    (x : ℕ) → x < 2 → (literal (b'/' ∷ b'a' ∷ []) x ≢ 0) × (literal (b'/' ∷ b'a' ∷ []) x < 128)
slash_a zero h = (omega arith, omega arith)
slash_a (suc zero) h = (omega arith, omega arith)
slash_a (suc (suc x)) h = absurd (omega arith)

slash : (x : ℕ) → x < 1 → (literal (b'/' ∷ []) x ≢ 0) × (literal (b'/' ∷ []) x < 128)
slash zero h = (omega arith, omega arith)
slash (suc x) h = absurd (omega arith)

two_patterns-IsMatcher : IsMatcher two_patterns (length_of two_patterns)
unfolding strnlen
two_patterns-IsMatcher = record { size = refl; text = texts; short = short; sorted = sorted }
  where
    texts : (i : ℕ) → i < 2 → IsText (two_items i).pattern (length_of two_patterns i)
    texts zero h = (slash_a, refl)
    texts (suc i) h = (slash, refl)

    short : (i : ℕ) → i < 2 → length_of two_patterns i < 16
    short zero h = omega arith
    short (suc i) h = omega arith

    first :
        (x : ℕ)
        → x < 1
        → (literal (b'/' ∷ b'a' ∷ []) x ≡ literal (b'/' ∷ []) x)
          × (literal (b'/' ∷ b'a' ∷ []) x ≢ 0)
    first zero h = (refl, omega arith)
    first (suc x) h = absurd (omega arith)

    sorted : (i j : ℕ) → i < j → j < 2 → Before (two_items i).pattern (two_items j).pattern
    sorted zero (suc j) h f = (1, first, omega arith)
    sorted zero zero h f = absurd (omega arith)
    sorted (suc i) j h f = absurd (omega arith)

slash_a_below :
    (x : ℕ) → x < strnlen (literal (b'/' ∷ b'a' ∷ [])) 16 → literal (b'/' ∷ b'a' ∷ []) x < 128
unfolding strnlen
slash_a_below x h = (slash_a x h).1

hmt_compile-Longest_example :
    (compiled : Hmt) × (hmt_compile 18 true two_patterns ≡ done (compiled, some 0))
    × ((string : Mem)
        → (res : Option ℕ) × (hmt_match 18 compiled string ≡ done (found two_patterns res))
          × Longest two_patterns (length_of two_patterns) string res)
hmt_compile-Longest_example =
    hmt_compile-Longest two_patterns two_patterns-IsMatcher 18 (omega arith) (omega arith)

hmt_add-Adds_example :
    Adds two_patterns
      (literal (b'/' ∷ b'a' ∷ []))
      9
      (hmt_add two_patterns (literal (b'/' ∷ b'a' ∷ [])) 9)
hmt_add-Adds_example =
    hmt_add-Adds two_patterns (literal (b'/' ∷ b'a' ∷ [])) 9 two_patterns-IsMatcher slash_a_below

-- A search for "/ab" and for "/b".
abbrev look_up : Run (Hmt × Option ℕ) → Mem → Run (Option (ℕ × ℕ))
look_up (done (pt, r)) string = hmt_match 18 pt string
look_up out_of_fuel string = out_of_fuel

look_up_a :
    look_up (hmt_compile 18 true two_patterns) (literal (b'/' ∷ b'a' ∷ b'b' ∷ []))
    ≡ done (some (7, 2))
unfolding hmt_compile hmt_match
look_up_a = refl

look_up_b :
    look_up (hmt_compile 18 true two_patterns) (literal (b'/' ∷ b'b' ∷ [])) ≡ done (some (8, 1))
unfolding hmt_compile hmt_match
look_up_b = refl

-- With a byte of 200 in the first pattern, the second is not found: `char` has a sign in the search,
-- and has none in `strncmp`.
abbrev high_items : ℕ → Item
high_items zero = record { pattern = literal (200 ∷ []); userdata = 7; malloc_item = 0 }
high_items (suc i) = record { pattern = literal (b'/' ∷ []); userdata = 8; malloc_item = 0 }

look_up_high :
    look_up (hmt_compile 18 true (record two_patterns { items = high_items })) (literal (b'/' ∷ []))
    ≡ done none
unfolding hmt_compile hmt_match
look_up_high = refl
