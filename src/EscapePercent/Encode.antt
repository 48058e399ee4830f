-- ===== src/EscapePercent/Encode.antt =====
-- Percent encoding, which the repository leaves to browsers, and what decoding makes of it.
use esq.Base.{
  ℕ, ◌+◌, ◌-◌, ◌/◌, ◌%◌, ◌<◌, ◌≡◌, refl, ◌∙◌, inl, inr, Bool, true, false, not, ◌&&◌, Option, none,
  some, List, [], ◌∷◌, arith, ltb, ◌==◌, if◌then◌else◌, Bool-cases, length, All, Mem, slice,
  table_holds, table_holds-at, done,
}
use esq.EscapePercent.{hex_pair, escape_percent_in_place}
use esq.EscapePercent.InPlace.{decode, decode-plain, decode_digits, escape_percent_in_place-decode}

-- A hexadecimal digit, in upper case.
abbrev pub hex_digit : ℕ → ℕ
hex_digit d = if ltb d 10 then d + b'0' else d - 10 + b'A'

-- Percent encoding of the bytes that `keep` does not spare. A '%' is always encoded.
unfoldable pub encode : (ℕ → Bool) → List ℕ → List ℕ
encode keep [] = []
encode keep (c ∷ r) =
    let rest = encode keep r in
    if keep c && not (c == b'%')
    then c ∷ rest
    else b'%' ∷ hex_digit (c / 16) ∷ hex_digit (c % 16) ∷ rest

abbrev back : Option ℕ → ℕ → Bool
back none c = false
back (some k) c = k == c

hex_table :
    table_holds (λ c. back (hex_pair (hex_digit (c / 16)) (hex_digit (c % 16))) c) 256 ≡ true
unfolding table_holds hex_pair
hex_table = refl

hex_pair-hex_digit : (c : ℕ) → c < 256 → hex_pair (hex_digit (c / 16)) (hex_digit (c % 16)) ≡ some c
hex_pair-hex_digit c h = ground (arith, table_holds-at _ c 256 h hex_table)

decode-encode :
    (keep : ℕ → Bool) (xs : List ℕ) → All (λ c. c < 256) xs → decode (encode keep xs) ≡ some xs
unfolding encode
decode-encode keep [] h = unfold decode in refl
decode-encode keep (c ∷ r) (b, h) = elim (Bool-cases (keep c && not (c == b'%'))) [
  | inl plain ↦ rw (plain, decode-plain c (encode keep r) (ground arith), decode-encode keep r h)
  | inr escaped ↦ rw (
    escaped,
    decode_digits b'%' _ _ (encode keep r) refl c (hex_pair-hex_digit c b),
    decode-encode keep r h,
  )
]

-- Decoding in place undoes percent encoding: whatever bytes the encoder spares, the call on an
-- encoded text returns the length of the text, and the buffer begins with the text.
pub escape_percent_in_place-encode :
    (keep : ℕ → Bool) (xs : List ℕ) (m : Mem) (l : ℕ)
    → All (λ c. c < 256) xs
    → slice m 0 l ≡ encode keep xs
    → (m' : Mem) × (escape_percent_in_place m l ≡ done (some (length xs), m'))
      × (slice m' 0 (length xs) ≡ xs)
escape_percent_in_place-encode keep xs m l small held =
    let (r, m', run, _, good, _) = escape_percent_in_place-decode m l in
    let (len, text) = good xs (rw held (decode-encode keep xs small)) in (m', run ∙ rw len, text)
