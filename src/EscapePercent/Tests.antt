-- ===== src/EscapePercent/Tests.antt =====
-- Runs on "a%2Fb", and the theorems of the siblings there.
use esq.Base.{
  ℕ, ◌≤◌, ◌≡◌, ◌↔◌, refl, Bool, true, false, Option, none, some, List, [], ◌∷◌, arith, ◌==◌,
  if◌then◌else◌, length, Mem, slice, literal, done,
}
use esq.EscapePercent.{epip_translate, hex_pair, escape_percent_in_place}
use esq.EscapePercent.InPlace.{decode, escape_percent_in_place-decode}
use esq.EscapePercent.Encode.{encode, escape_percent_in_place-encode}

abbrev text : List ℕ
text = b'a' ∷ b'/' ∷ b'b' ∷ []

abbrev encoded : Mem
encoded = literal (b'a' ∷ b'%' ∷ b'2' ∷ b'F' ∷ b'b' ∷ [])

abbrev not_slash : ℕ → Bool
not_slash c = if c == b'/' then false else true

decoded : decode (slice encoded 0 5) ≡ some text
unfolding decode
decoded = unfold hex_pair in unfold epip_translate in refl

encode-text : slice encoded 0 5 ≡ encode not_slash text
unfolding encode
encode-text = refl

escape_percent_in_place-decode_example :
    (r : Option ℕ) × (m' : Mem) × (escape_percent_in_place encoded 5 ≡ done (r, m'))
    × ((r ≡ none) ↔ (decode (slice encoded 0 5) ≡ none))
    × ((out : List ℕ)
        → decode (slice encoded 0 5) ≡ some out
        → (r ≡ some (length out)) × (slice m' 0 (length out) ≡ out))
    × ((q : ℕ) → 5 ≤ q → m' q ≡ encoded q)
escape_percent_in_place-decode_example = escape_percent_in_place-decode encoded 5

escape_percent_in_place-encode_example :
    (m' : Mem) × (escape_percent_in_place encoded 5 ≡ done (some 3, m')) × (slice m' 0 3 ≡ text)
escape_percent_in_place-encode_example =
    escape_percent_in_place-encode not_slash text encoded 5
      (omega arith, (omega arith, (omega arith, tt))) encode-text
