-- ===== src/Scan/HashString/Marked.antt =====
-- Hash strings with their mark behind them, and where the scanner finds them.
use esq.Base.{
  ℕ, suc, none, some, ◌+◌, ◌-◌, ◌%◌, ◌==◌, if◌then◌else◌, ◌≡◌, refl, ap, ◌∙◌, true, false, List, [],
  ◌∷◌, ◌++◌, arith, length, All,
}
use esq.Scan.{blank}
use esq.Scan.HashString.{
  hash_digit, mark, Statu, s_start, s_hash, finished, hash_loop, get_hash_string,
}

blank_only : (c : ℕ) → blank c ≡ true → hash_digit c ≡ false
blank_only c h = ground arith

mark_only : (c : ℕ) → mark c ≡ true → (hash_digit c ≡ false) × (blank c ≡ false)
mark_only c h = (ground arith, ground arith)

loop_mark :
    (c : ℕ) (rest : List ℕ) (statu : Statu) (start i : ℕ)
    → mark c ≡ true
    → hash_loop (c ∷ rest) statu start i ≡ finished i start
unfolding hash_loop
loop_mark c rest statu start i m =
    let (no_digit, no_blank) = mark_only c m in rw (no_digit, no_blank, m) refl

loop_digits :
    (hs rest : List ℕ) (start i : ℕ)
    → All (λ c. hash_digit c ≡ true) hs
    → hash_loop (hs ++ rest) s_hash start i ≡ hash_loop rest s_hash start (i + length hs)
unfolding hash_loop
loop_digits [] rest start i h = let e : i + 0 ≡ i = omega arith in rw e refl
loop_digits (c ∷ cs) rest start i (d, h) =
    let e : i + suc (length cs) ≡ i + 1 + length cs = omega arith in
    rw (d, e) (loop_digits cs rest start (i + 1) h)

loop_blanks :
    (bs rest : List ℕ) (start i : ℕ)
    → All (λ c. blank c ≡ true) bs
    → hash_loop (bs ++ rest) s_start start i ≡ hash_loop rest s_start start (i + length bs)
unfolding hash_loop
loop_blanks [] rest start i h = let e : i + 0 ≡ i = omega arith in rw e refl
loop_blanks (c ∷ cs) rest start i (b, h) =
    let e : i + suc (length cs) ≡ i + 1 + length cs = omega arith in
    rw (blank_only c b, b, e) (loop_blanks cs rest start (i + 1) h)

loop_first :
    (c : ℕ) (rest : List ℕ) (start i : ℕ)
    → hash_digit c ≡ true
    → hash_loop (c ∷ rest) s_start start i ≡ hash_loop rest s_hash i (i + 1)
unfolding hash_loop
loop_first c rest start i d = rw d refl

-- Where the hash string is said to start: behind the blanks, but at 0 where it is empty.
abbrev pub start_of : List ℕ → List ℕ → ℕ
start_of blanks [] = 0
start_of blanks (h ∷ hs) = length blanks

-- The bytes that count as the hash string: the digits, but the blanks where there is no digit.
abbrev pub counted : List ℕ → List ℕ → List ℕ
counted blanks [] = blanks
counted blanks (h ∷ hs) = h ∷ hs

-- `get_hash_string` on blanks, hexadecimal digits and an 'x' or 'X'. The hash string is the digits,
-- behind the blanks; where there is no digit the blanks count as the hash string, from 0 on. The
-- result is -1 if the number of its bytes is odd, and otherwise the number of bytes up to and with
-- the mark, the start of the hash string, and its length.
pub get_hash_string-marked :
    (blanks hs rest : List ℕ) (m : ℕ)
    → All (λ c. blank c ≡ true) blanks
    → All (λ c. hash_digit c ≡ true) hs
    → mark m ≡ true
    → get_hash_string (blanks ++ (hs ++ (m ∷ rest))) ≡ (
        if length (counted blanks hs) % 2 == 1
        then none
        else some (length blanks + length hs + 1, start_of blanks hs, length (counted blanks hs)))
unfolding get_hash_string
get_hash_string-marked blanks [] rest m are_blank h is_mark =
    let e : 0 + length blanks ≡ length blanks = omega arith in
    let e' : length blanks + 0 ≡ length blanks = omega arith in
    let size : length blanks - 0 ≡ length blanks = omega arith in
    loop_blanks blanks (m ∷ rest) 0 0 are_blank
    ∙ loop_mark m rest s_start 0 _ is_mark
    ∙ rw (e, e', size) refl
get_hash_string-marked blanks (c ∷ cs) rest m are_blank (d, h) is_mark =
    let e : 0 + length blanks ≡ length blanks = omega arith in
    let e' : length blanks + 1 + length cs ≡ length blanks + suc (length cs) = omega arith in
    let size : length blanks + suc (length cs) - length blanks ≡ suc (length cs) = omega arith in
    loop_blanks blanks _ 0 0 are_blank
    ∙ ap (λ k. hash_loop (c ∷ (cs ++ (m ∷ rest))) s_start 0 k) e
    ∙ loop_first c (cs ++ (m ∷ rest)) 0 (length blanks) d
    ∙ loop_digits cs (m ∷ rest) _ _ h
    ∙ loop_mark m rest s_hash _ _ is_mark
    ∙ rw (e', size) refl
