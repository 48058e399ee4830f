-- ===== src/Scan/HashString.antt =====
-- libs/sscanf/hash-string.c
pub mod Marked
pub mod Binary
mod Tests
use esq.Base.{
  ℕ, zero, suc, ◌+◌, ◌*◌, ◌-◌, ◌%◌, ◌||◌, Bool, true, false, Option, none, some, List, [], ◌∷◌, ltb,
  ◌==◌, if◌then◌else◌, within, Mem, store, Run, done, out_of_fuel,
}
use esq.Scan.{blank}

-- The bytes of class 1 in `hash_string_handle_table`.
abbrev pub hash_digit : ℕ → Bool
hash_digit c = within b'0' b'9' c || within b'A' b'F' c || within b'a' b'f' c

-- The bytes of class 3.
abbrev pub mark : ℕ → Bool
mark c = c == b'X' || c == b'x'

pub data Statu : Type 0 where
  s_start : Statu
  s_hash : Statu

-- The number of bytes parsed, the start and the length of the hash string; -1 is `none`.
abbrev pub Scanned : Type 0
Scanned = Option (ℕ × ℕ × ℕ)

-- FETCH_NUMBER: the start, of which the state is S_HASH from here on.
abbrev pub fetch_number : Statu → ℕ → ℕ → ℕ
fetch_number s_start start i = i
fetch_number s_hash start i = start

-- FETCH_BLANK, with the rest of the loop behind it.
abbrev pub fetch_blank : Statu → Scanned → Scanned
fetch_blank s_start next = next
fetch_blank s_hash next = none

-- The code behind `__finished`.
abbrev pub finished : ℕ → ℕ → Scanned
finished i start = if (i - start) % 2 == 1 then none else some (i + 1, start, i - start)

unfoldable pub hash_loop : List ℕ → Statu → ℕ → ℕ → Scanned
hash_loop [] statu start i = none
hash_loop (c ∷ buf) statu start i =
    let number = hash_loop buf s_hash (fetch_number statu start i) (i + 1) in
    let next = hash_loop buf statu start (i + 1) in
    if hash_digit c
    then number
    else if blank c
    then fetch_blank statu next
    else if mark c
    then finished i start
    else none

unfoldable pub get_hash_string : List ℕ → Scanned
unfolding hash_loop
get_hash_string buf = hash_loop buf s_start 0 0

-- `hash_string_2_bin_table`
unfoldable pub hash_string_2_bin_table : ℕ → ℕ
hash_string_2_bin_table c =
    if within b'0' b'9' c
    then c - b'0'
    else if within b'A' b'F' c
    then c - b'A' + 10
    else if within b'a' b'f' c
    then c - b'a' + 10
    else 0

-- The loop of `hash_str_2_bin` at `i` and `w`.
unfoldable pub bin_loop : ℕ → Mem → Mem → ℕ → ℕ → ℕ → Run Mem
unfolding hash_string_2_bin_table
bin_loop zero buf hash_string hash_str_len i w = out_of_fuel
bin_loop (suc fuel) buf hash_string hash_str_len i w =
    let ch = hash_string_2_bin_table (hash_string i) in
    let cl = hash_string_2_bin_table (hash_string (i + 1)) in
    let next =
      bin_loop fuel (store buf w (ch * 16 + cl)) hash_string hash_str_len (i + 2) (w + 1) in
    if ltb i hash_str_len then next else done buf

-- What it leaves in `buf`; `none` is the return of -1.
unfoldable pub hash_str_2_bin : Mem → Mem → ℕ → Option (Run Mem)
unfolding bin_loop
hash_str_2_bin buf hash_string hash_str_len =
    let run = bin_loop (hash_str_len + 1) buf hash_string hash_str_len 0 0 in
    if hash_str_len % 2 == 1 then none else some run
