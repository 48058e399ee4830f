-- ===== src/Scan/Integer.antt =====
-- libs/sscanf/integer-10000000.c
pub mod Sound
mod Tests
use esq.Base.{
  ℕ, zero, suc, ◌+◌, ◌*◌, ◌-◌, Bool, true, false, Option, none, some, List, [], ◌∷◌, ltb,
  if◌then◌else◌,
}
use esq.Scan.{blank, digit}

abbrev pub number_limit : ℕ
number_limit = 10000000

pub data Statu : Type 0 where
  s_start : Statu
  s_number : Statu

-- The number of bytes parsed and the value; the result 0, an error, is `none`.
abbrev pub Scanned : Type 0
Scanned = Option (ℕ × ℕ)

-- FETCH_BLANK, with the rest of the loop behind it.
abbrev pub fetch_blank : Statu → ℕ → ℕ → Scanned → Scanned
fetch_blank s_start i v next = next
fetch_blank s_number i v next = some (i, v)

-- The loop at `i`, where `v` is read.
unfoldable pub integer_loop : List ℕ → Statu → ℕ → ℕ → Scanned
integer_loop [] statu i v = fetch_blank statu i v none
integer_loop (c ∷ buf) s_start i v =
    let number = integer_loop buf s_number (i + 1) (c - b'0') in
    let next = integer_loop buf s_start (i + 1) v in
    if digit c then number else if blank c then fetch_blank s_start i v next else none
integer_loop (c ∷ buf) s_number i v =
    let w = v * 10 + (c - b'0') in
    let number = integer_loop buf s_number (i + 1) w in
    if digit c
    then (if ltb number_limit w then none else number)
    else if blank c
    then fetch_blank s_number i v none
    else none

unfoldable pub get_integer_1000000 : List ℕ → Scanned
unfolding integer_loop
get_integer_1000000 buf = integer_loop buf s_start 0 0
