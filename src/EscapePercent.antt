-- ===== src/EscapePercent.antt =====
-- libs/escape-percent/escape-percent.c: percent decoding in place.
pub mod InPlace
pub mod Encode
mod Tests
use esq.Base.{
  ℕ, zero, suc, ◌+◌, ◌-◌, ◌*◌, Option, none, some, ltb, ◌==◌, if◌then◌else◌, within, Mem, store,
  Run, done, out_of_fuel,
}

-- `epip_translate_table`; `none` is its entry -1.
unfoldable pub epip_translate : ℕ → Option ℕ
epip_translate t =
    if within b'0' b'9' t
    then some (t - b'0')
    else if within b'A' b'F' t
    then some (t - b'A' + 10)
    else if within b'a' b'f' t
    then some (t - b'a' + 10)
    else none

-- What the function returns, -1 as `none`, and the buffer that it leaves.
abbrev pub Escaped : Type 0
Escaped = Option ℕ × Mem

-- The two digits behind a '%' as one byte, `k << 4` plus the second.
unfoldable pub hex_pair : ℕ → ℕ → Option ℕ
unfolding epip_translate
hex_pair t u = elim (epip_translate t) [
  | none ↦ none
  | some h ↦ elim (epip_translate u) [ none ↦ none | some k ↦ some (h * 16 + k) ]
]

-- -1 where the two bytes are no hexadecimal digits, and the rest of the loop otherwise.
abbrev pub with_code : Option ℕ → Mem → (ℕ → Run Escaped) → Run Escaped
with_code none m next = done (none, m)
with_code (some code) m next = next code

-- The loop of `escape_percent_in_place` at `i` and `w`, over a buffer of `l` bytes.
unfoldable pub escape_loop : ℕ → ℕ → Mem → ℕ → ℕ → Run Escaped
escape_loop zero l m i w = out_of_fuel
escape_loop (suc fuel) l m i w =
    let plain = escape_loop fuel l (store m w (m i)) (i + 1) (w + 1) in
    let escaped = λ (code : ℕ). escape_loop fuel l (store m w code) (i + 3) (w + 1) in
    if ltb i l
    then (if m i == b'%'
        then (if ltb (l - i) 3
            then done (none, m)
            else with_code (hex_pair (m (i + 1)) (m (i + 2))) m escaped)
        else plain)
    else done (some w, m)

unfoldable pub escape_percent_in_place : Mem → ℕ → Run Escaped
unfolding escape_loop hex_pair
escape_percent_in_place m l = escape_loop (l + 1) l m 0 0
