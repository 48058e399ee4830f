-- ===== src/Utf8/Sound.antt =====
-- What `get_code_from_utf8` accepts, and what it returns there.
use esq.Base.{
  ℕ, zero, suc, ◌+◌, ◌*◌, ◌/◌, ◌%◌, ◌^◌, ◌<◌, ◌≤◌, ◌≡◌, ◌⊎◌, refl, inl, inr, none, some, arith,
  ◌==◌, Bool-cases, Option-cases, All, Mem, slice,
}
use esq.Utf8.{Fetched, has_bit, following, sequence, get_code_from_utf8}

-- `n` times six more bits, all zero.
abbrev shifted : ℕ → ℕ → ℕ
shifted zero code = code
shifted (suc n) code = shifted n (code * 64)

shifted_mono : (n a b : ℕ) → a ≤ b → shifted n a ≤ shifted n b
shifted_mono zero a b h = h
shifted_mono (suc n) a b h = shifted_mono n (a * 64) (b * 64) (omega arith)

following-Sound :
    (buf : Mem) (i code n c : ℕ)
    → following buf i code n ≡ some c
    → All (λ b. 128 ≤ b) (slice buf i n) × (shifted n code ≤ c) × (c < shifted n (code + 1))
unfolding following
following-Sound buf i code zero c h = (tt, ground arith, ground arith)
following-Sound buf i code (suc n) c h = elim (Bool-cases (buf i / 64 % 4 == 2)) [
  | inr bad ↦ absurd (cc (rw bad at h))
  | inl good ↦
      let (bytes, low, high) =
        following-Sound buf (i + 1) (code * 64 + buf i % 64) n c (rw good at h) in
      let from : shifted n (code * 64) ≤ shifted n (code * 64 + buf i % 64) =
        shifted_mono n _ _ (omega arith) in
      let to : shifted n (code * 64 + buf i % 64 + 1) ≤ shifted n ((code + 1) * 64) =
        shifted_mono n _ _ (omega arith) in
      ((ground arith, bytes), omega arith, omega arith)
]

-- A code of one byte is that byte. One of two to four bytes has no byte below 128, and lies between
-- 64 and 2 ^ 21.
abbrev pub IsCode : Mem → ℕ → ℕ → Type 0
IsCode buf l c =
    ((l ≡ 1) × (c ≡ buf 0))
    ⊎ ((2 ≤ l) × (l ≤ 4) × All (λ b. 128 ≤ b) (slice buf 0 l) × (64 ≤ c) × (c < 2 ^ 21))

abbrev Fits : Mem → Fetched → Type 0
Fits buf none = Unit
Fits buf (some (l, c)) = IsCode buf l c

sequence-Fits :
    (buf : Mem) (code n : ℕ)
    → 128 ≤ buf 0
    → 1 ≤ n
    → n ≤ 3
    → 64 ≤ shifted n 1
    → shifted n (code + 1) ≤ 2 ^ 21
    → Fits buf (sequence buf (suc n) code n)
sequence-Fits buf code n lead one_more few unit top = elim (Bool-cases (code == 0)) [
  | inl z ↦ rw z tt
  | inr nz ↦ rw nz (elim (Option-cases (following buf 1 code n)) [
    | inl bad ↦ rw bad tt
    | inr (c, good) ↦
        let (bytes, low, high) = following-Sound buf 1 code n c good in
        let from : shifted n 1 ≤ shifted n code = shifted_mono n 1 code (ground arith) in
        rw good (inr (omega arith, omega arith, (lead, bytes), omega arith, omega arith))
  ])
]

get_code_from_utf8-Fits : (buf : Mem) → Fits buf (get_code_from_utf8 buf)
unfolding get_code_from_utf8
get_code_from_utf8-Fits buf = elim (Bool-cases (has_bit (buf 0) 128)) [
  | inr plain ↦ rw plain (inl (refl, refl))
  | inl high ↦
      let lead : 128 ≤ buf 0 = ground arith in
      rw high (elim (Bool-cases (has_bit (buf 0) 64)) [
        | inr bad ↦ rw bad tt
        | inl a ↦ rw a (elim (Bool-cases (has_bit (buf 0) 32)) [
          | inr two ↦
              rw two
                (sequence-Fits buf _ 1 lead (omega arith) (omega arith) (omega arith) (omega arith))
          | inl b ↦ rw b (elim (Bool-cases (has_bit (buf 0) 16)) [
            | inr three ↦
                rw three (
                  sequence-Fits buf _ 2 lead (omega arith) (omega arith) (omega arith)
                    (omega arith))
            | inl d ↦ rw d (elim (Bool-cases (has_bit (buf 0) 8)) [
              | inr four ↦ rw four (
                  sequence-Fits buf _ 3 lead (omega arith) (omega arith) (omega arith)
                    (omega arith))
              | inl e ↦ rw e tt
            ])
          ])
        ])
      ])
]

-- Where `get_code_from_utf8` returns a length and a code, the code is the first byte and the length
-- 1, or the length is 2 to 4, none of the bytes read is below 128 (so none of them ends the string,
-- is a slash or a dot), and the code is at least 64 and below 2 ^ 21.
pub get_code_from_utf8-IsCode :
    (buf : Mem) (l c : ℕ) → get_code_from_utf8 buf ≡ some (l, c) → IsCode buf l c
get_code_from_utf8-IsCode buf l c h = rw h at (get_code_from_utf8-Fits buf)
