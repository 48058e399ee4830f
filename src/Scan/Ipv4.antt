-- ===== src/Scan/Ipv4.antt =====
-- libs/sscanf/ipv4-addr.c
pub mod Dotted
mod Tests
use esq.Base.{
  ℕ, zero, suc, ◌+◌, ◌*◌, ◌-◌, ◌%◌, ◌^◌, Bool, true, false, Option, none, some, List, [], ◌∷◌, leb,
  ◌==◌, if◌then◌else◌, ltb, Mem, slice, strnlen,
}
use esq.Scan.{blank, digit}

pub data Statu : Type 0 where
  s_start : Statu
  s_number1 : Statu
  s_dot1 : Statu
  s_number2 : Statu
  s_dot2 : Statu
  s_number3 : Statu
  s_dot3 : Statu
  s_number4 : Statu

pub record Numbers : Type 0 where
  pub number1 : ℕ
  pub number2 : ℕ
  pub number3 : ℕ
  pub number4 : ℕ

-- The number of bytes parsed and the address; the result 0, an error, is `none`.
abbrev pub Scanned : Type 0
Scanned = Option (ℕ × ℕ)

-- The digit `d` more in a number that was `v`.
abbrev pub more_digit : Statu → ℕ → ℕ → (ℕ → Numbers) → Option (Statu × Numbers)
more_digit statu v d put = if leb 255 (v * 10 + d) then none else some (statu, put (v * 10 + d))

-- FETCH_NUMBER, `d` being `c - '0'`. `none` is the return of 0.
abbrev pub fetch_number : Statu → Numbers → ℕ → Option (Statu × Numbers)
fetch_number s_start a d = some (
  s_number1,
  record { number1 = d; number2 = a.number2; number3 = a.number3; number4 = a.number4 },
)
fetch_number s_number1 a d =
    more_digit s_number1 a.number1 d
      λ v. record { number1 = v; number2 = a.number2; number3 = a.number3; number4 = a.number4 }
fetch_number s_dot1 a d = some (
  s_number2,
  record { number1 = a.number1; number2 = d; number3 = a.number3; number4 = a.number4 },
)
fetch_number s_number2 a d =
    more_digit s_number2 a.number2 d
      λ v. record { number1 = a.number1; number2 = v; number3 = a.number3; number4 = a.number4 }
fetch_number s_dot2 a d = some (
  s_number3,
  record { number1 = a.number1; number2 = a.number2; number3 = d; number4 = a.number4 },
)
fetch_number s_number3 a d =
    more_digit s_number3 a.number3 d
      λ v. record { number1 = a.number1; number2 = a.number2; number3 = v; number4 = a.number4 }
fetch_number s_dot3 a d = some (
  s_number4,
  record { number1 = a.number1; number2 = a.number2; number3 = a.number3; number4 = d },
)
fetch_number s_number4 a d =
    more_digit s_number4 a.number4 d
      λ v. record { number1 = a.number1; number2 = a.number2; number3 = a.number3; number4 = v }

-- FETCH_DOT
abbrev pub fetch_dot : Statu → Option Statu
fetch_dot s_start = none
fetch_dot s_number1 = some s_dot1
fetch_dot s_dot1 = none
fetch_dot s_number2 = some s_dot2
fetch_dot s_dot2 = none
fetch_dot s_number3 = some s_dot3
fetch_dot s_dot3 = none
fetch_dot s_number4 = none

-- The code behind `__finished`.
abbrev pub finished : Numbers → ℕ → Scanned
finished a i =
    some (i, (a.number1 * 2 ^ 24 + a.number2 * 2 ^ 16 + a.number3 * 2 ^ 8 + a.number4) % 2 ^ 32)

-- FETCH_BLANK, with the rest of the loop behind it.
abbrev pub fetch_blank : Statu → Numbers → ℕ → Scanned → Scanned
fetch_blank s_start a i next = next
fetch_blank s_number1 a i next = none
fetch_blank s_dot1 a i next = none
fetch_blank s_number2 a i next = none
fetch_blank s_dot2 a i next = none
fetch_blank s_number3 a i next = none
fetch_blank s_dot3 a i next = none
fetch_blank s_number4 a i next = finished a i

unfoldable pub ipv4_loop : List ℕ → Statu → Numbers → ℕ → Scanned
ipv4_loop [] statu a i = fetch_blank statu a i none
ipv4_loop (c ∷ buf) statu a i =
    let next = λ (s : Statu) (b : Numbers). ipv4_loop buf s b (i + 1) in
    if digit c
    then elim (fetch_number statu a (c - b'0')) [ none ↦ none | some (s, b) ↦ next s b ]
    else if c == b'.'
    then elim (fetch_dot statu) [ none ↦ none | some s ↦ next s a ]
    else if blank c
    then fetch_blank statu a i (next statu a)
    else none

abbrev pub zeros : Numbers
zeros = record { number1 = 0; number2 = 0; number3 = 0; number4 = 0 }

unfoldable pub get_ipv4_addr : List ℕ → Scanned
unfolding ipv4_loop
get_ipv4_addr buf = ipv4_loop buf s_start zeros 0

unfoldable pub match_ipv4_addr : List ℕ → ℕ
unfolding get_ipv4_addr
match_ipv4_addr buf = elim (get_ipv4_addr buf) [ none ↦ 0 | some (r, a) ↦ r ]

unfoldable pub get_ipv4_addr2 : Mem → Scanned
unfolding get_ipv4_addr strnlen
get_ipv4_addr2 buf =
    let len = strnlen buf 16 in
    if ltb 15 len then none else if len == 0 then none else get_ipv4_addr (slice buf 0 len)
