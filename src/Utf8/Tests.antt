-- ===== src/Utf8/Tests.antt =====
-- Runs on U+00E9, U+20AC and U+0905, and the theorems of the siblings there.
use esq.Base.{◌≡◌, refl, some, none, [], ◌∷◌, arith, if◌then◌else◌, length, Mem, slice, literal}
use esq.Utf8.{following, get_code_from_utf8}
use esq.Utf8.Sound.{IsCode, get_code_from_utf8-IsCode}
use esq.Utf8.Encode.{no_lead_bits, utf8, get_code_from_utf8-utf8}

abbrev euro : Mem
euro = literal (0xe2 ∷ 0x82 ∷ 0xac ∷ [])

euro_code : get_code_from_utf8 euro ≡ some (3, 0x20ac)
unfolding get_code_from_utf8 following
euro_code = refl

utf8-euro : slice euro 0 (length (utf8 0x20ac)) ≡ utf8 0x20ac
unfolding utf8
utf8-euro = refl

-- A letter of Devanagari, encoded as e0 a4 85.
letter_refused : get_code_from_utf8 (literal (0xe0 ∷ 0xa4 ∷ 0x85 ∷ [])) ≡ none
unfolding get_code_from_utf8 following
letter_refused = refl

-- An overlong encoding of '@'.
overlong_accepted : get_code_from_utf8 (literal (0xc1 ∷ 0x80 ∷ [])) ≡ some (2, b'@')
unfolding get_code_from_utf8 following
overlong_accepted = refl

get_code_from_utf8-IsCode_example : IsCode euro 3 0x20ac
get_code_from_utf8-IsCode_example = get_code_from_utf8-IsCode euro 3 0x20ac euro_code

get_code_from_utf8-utf8_example :
    get_code_from_utf8 euro
    ≡ (if no_lead_bits 0x20ac then none else some (length (utf8 0x20ac), 0x20ac))
get_code_from_utf8-utf8_example = get_code_from_utf8-utf8 euro 0x20ac (omega arith) utf8-euro
