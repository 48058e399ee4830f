-- ===== src/Utf8/Encode.antt =====
-- UTF-8 encoding, which the repository leaves to browsers, and what decoding makes of it.
use esq.Base.{
  ℕ, ◌+◌, ◌/◌, ◌%◌, ◌<◌, ◌≤◌, ◌≡◌, inl, inr, Bool, false, ◌||◌, none, some, List, [], ◌∷◌, arith,
  ltb, ltb→lt, if◌then◌else◌, Bool-cases, length, within, Mem, slice,
}
use esq.Utf8.{following, get_code_from_utf8}

-- The UTF-8 encoding of a code point below 2 ^ 21.
unfoldable pub utf8 : ℕ → List ℕ
utf8 cp =
    if ltb cp 0x80
    then cp ∷ []
    else if ltb cp 0x800
    then (0xc0 + cp / 64) ∷ (0x80 + cp % 64) ∷ []
    else if ltb cp 0x10000
    then (0xe0 + cp / 4096) ∷ (0x80 + cp / 64 % 64) ∷ (0x80 + cp % 64) ∷ []
    else ((0xf0 + cp / 262144)
        ∷ (0x80 + cp / 4096 % 64)
        ∷ (0x80 + cp / 64 % 64)
        ∷ (0x80 + cp % 64)
        ∷ [])

-- The code points whose lead byte carries only zeros.
abbrev pub no_lead_bits : ℕ → Bool
no_lead_bits cp = within 0x800 0xfff cp || within 0x10000 0x3ffff cp

module _ (buf : Mem) where
  one_byte : (cp : ℕ) → cp < 0x80 → buf 0 ≡ cp → get_code_from_utf8 buf ≡ some (1, cp)
  unfolding get_code_from_utf8
  one_byte cp small e0 = ground arith

  two_bytes :
      (cp : ℕ)
      → 0x80 ≤ cp
      → cp < 0x800
      → buf 0 ≡ 0xc0 + cp / 64
      → buf 1 ≡ 0x80 + cp % 64
      → get_code_from_utf8 buf ≡ some (2, cp)
  unfolding get_code_from_utf8 following
  two_bytes cp low high e0 e1 = ground arith

  three_bytes :
      (cp : ℕ)
      → 0x800 ≤ cp
      → cp < 0x10000
      → buf 0 ≡ 0xe0 + cp / 4096
      → buf 1 ≡ 0x80 + cp / 64 % 64
      → buf 2 ≡ 0x80 + cp % 64
      → get_code_from_utf8 buf ≡ (if ltb cp 0x1000 then none else some (3, cp))
  unfolding get_code_from_utf8 following
  three_bytes cp low high e0 e1 e2 = ground arith

  four_bytes :
      (cp : ℕ)
      → 0x10000 ≤ cp
      → cp < 0x200000
      → buf 0 ≡ 0xf0 + cp / 262144
      → buf 1 ≡ 0x80 + cp / 4096 % 64
      → buf 2 ≡ 0x80 + cp / 64 % 64
      → buf 3 ≡ 0x80 + cp % 64
      → get_code_from_utf8 buf ≡ (if ltb cp 0x40000 then none else some (4, cp))
  unfolding get_code_from_utf8 following
  four_bytes cp low high e0 e1 e2 e3 = ground arith

-- On the UTF-8 encoding of a code point below 2 ^ 21, `get_code_from_utf8` returns the number of its
-- bytes and the code point, except for the code points from 0x800 to 0xfff and from 0x10000 to
-- 0x3ffff: their encodings, which are valid, are refused.
pub get_code_from_utf8-utf8 :
    (buf : Mem) (cp : ℕ)
    → cp < 0x200000
    → slice buf 0 (length (utf8 cp)) ≡ utf8 cp
    → get_code_from_utf8 buf ≡ (if no_lead_bits cp then none else some (length (utf8 cp), cp))
unfolding utf8
get_code_from_utf8-utf8 buf cp top held = elim (Bool-cases (ltb cp 0x80)) [
  | inl one ↦
      let e0 : buf 0 ≡ cp = cc (rw one at held) in
      let kept : no_lead_bits cp ≡ false = ground arith in
      rw (one, kept) (one_byte buf cp (ltb→lt _ _ one) e0)
  | inr more ↦ elim (Bool-cases (ltb cp 0x800)) [
    | inl two ↦
        let h = rw (more, two) at held in
        let kept : no_lead_bits cp ≡ false = ground arith in
        rw (more, two, kept) (two_bytes buf cp (ground arith) (ltb→lt _ _ two) (cc h) (cc h))
    | inr more2 ↦ elim (Bool-cases (ltb cp 0x10000)) [
      | inl three ↦
          let h = rw (more, more2, three) at held in
          let same : no_lead_bits cp ≡ ltb cp 0x1000 = ground arith in
          rw (more, more2, three, same)
            (three_bytes buf cp (ground arith) (ltb→lt _ _ three) (cc h) (cc h) (cc h))
      | inr four ↦
          let h = rw (more, more2, four) at held in
          let same : no_lead_bits cp ≡ ltb cp 0x40000 = ground arith in
          rw (more, more2, four, same)
            (four_bytes buf cp (ground arith) top (cc h) (cc h) (cc h) (cc h))
    ]
  ]
]
