-- ===== src/Utf8.antt =====
-- libs/utf8-to-unicode/utf8-to-unicode.c: one code point from a UTF-8 string.
pub mod Sound
pub mod Encode
mod Tests
use esq.Base.{
  ℕ, zero, suc, ◌+◌, ◌*◌, ◌/◌, ◌%◌, Bool, true, false, not, Option, none, some, ◌==◌, if◌then◌else◌,
  Mem,
}

-- What the function returns, -1 as `none`, and the code that it stores.
abbrev pub Fetched : Type 0
Fetched = Option (ℕ × ℕ)

-- `c & (1 << n)`, on a byte.
abbrev pub has_bit : ℕ → ℕ → Bool
has_bit c weight = c / weight % 2 == 1

-- The loop over the `n` following bytes at `i`: `(c & 0xc0) == 0x80` and `(code << 6) + (c & 0x3f)`.
unfoldable pub following : Mem → ℕ → ℕ → ℕ → Option ℕ
following buf i code zero = some code
following buf i code (suc n) =
    let rest = following buf (i + 1) (code * 64 + buf i % 64) n in
    if buf i / 64 % 4 == 2 then rest else none

-- The sequence of `l` bytes whose lead byte carries `code`.
abbrev pub sequence : Mem → ℕ → ℕ → ℕ → Fetched
sequence buf l code n =
    if code == 0 then none else elim (following buf 1 code n) [ none ↦ none | some c ↦ some (l, c) ]

unfoldable pub get_code_from_utf8 : Mem → Fetched
unfolding following
get_code_from_utf8 buf =
    let c = buf 0 in
    if not (has_bit c 128)
    then some (1, c)
    else if not (has_bit c 64)
    then none
    else if not (has_bit c 32)
    then sequence buf 2 (c % 32) 1
    else if not (has_bit c 16)
    then sequence buf 3 (c % 16) 2
    else if not (has_bit c 8)
    then sequence buf 4 (c % 8) 3
    else none
