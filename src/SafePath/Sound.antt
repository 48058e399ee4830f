-- ===== src/SafePath/Sound.antt =====
-- What a path that `path_is_very_safe` accepts looks like.
use esq.Base.{
  ℕ, zero, suc, ◌+◌, ◌<◌, ◌≤◌, ◌≡◌, ◌≢◌, refl, sym, ap, subst, ◌∙◌, inl, inr, Bool, true, false,
  ◌||◌, List, [], ◌∷◌, ◌++◌, append-nil, append_assoc, arith, ltb, ltb→lt, leb, ◌==◌, if◌then◌else◌,
  Bool-cases, Option-cases, length, length-append, length-slice, All, Mem, slice, slice-append,
  slice_shift, Run, done, out_of_fuel,
}
use esq.Slash.{is_slash}
use esq.Slash.Components.{components, components_from, flush}
use esq.Utf8.{get_code_from_utf8}
use esq.Utf8.Sound.{IsCode, get_code_from_utf8-IsCode}
use esq.SafePath.{
  safe_path_max, safe_filename_max, h2esq_path_safe_table, safe_loop, path_is_very_safe,
}

-- A byte that may stand in a name: one of the table, a dot, or one of a longer UTF-8 sequence.
abbrev pub name_byte : ℕ → Bool
name_byte c = h2esq_path_safe_table c || c == b'.' || leb 128 c

abbrev pub HeadNotDot : List ℕ → Type 0
HeadNotDot [] = Unit
HeadNotDot (c ∷ r) = c ≢ b'.'

abbrev pub LastNotDot : List ℕ → Type 0
LastNotDot [] = Unit
LastNotDot (c ∷ []) = c ≢ b'.'
LastNotDot (c ∷ d ∷ r) = LastNotDot (d ∷ r)

-- A file name that neither begins nor ends with a dot (so it is neither "." nor ".."), that is short
-- enough, and that has no other bytes than those allowed.
abbrev pub IsSafeName : List ℕ → Type 0
IsSafeName name =
    HeadNotDot name
    × LastNotDot name
    × (length name < safe_filename_max)
    × All (λ c. name_byte c ≡ true) name

-- A name of which `len` bytes have been read.
abbrev Begun : List ℕ → ℕ → Bool → Type 0
Begun cur len afterdot =
    (length cur ≡ len)
    × HeadNotDot cur
    × (afterdot ≡ false → LastNotDot cur)
    × All (λ c. name_byte c ≡ true) cur

HeadNotDot-push :
    (cur : List ℕ) (c : ℕ)
    → HeadNotDot cur
    → (length cur ≡ 0 → c ≢ b'.')
    → HeadNotDot (cur ++ c ∷ [])
HeadNotDot-push [] c h first = first refl
HeadNotDot-push (x ∷ xs) c h first = h

LastNotDot-push : (cur : List ℕ) (c : ℕ) → c ≢ b'.' → LastNotDot (cur ++ c ∷ [])
LastNotDot-push [] c h = h
LastNotDot-push (x ∷ []) c h = h
LastNotDot-push (x ∷ y ∷ r) c h = LastNotDot-push (y ∷ r) c h

All-push :
    (cur : List ℕ) (c : ℕ)
    → All (λ c. name_byte c ≡ true) cur
    → name_byte c ≡ true
    → All (λ c. name_byte c ≡ true) (cur ++ c ∷ [])
All-push [] c h e = (e, tt)
All-push (x ∷ xs) c (h, hs) e = (h, All-push xs c hs e)

Begun-push :
    (cur : List ℕ) (len c : ℕ) (before afterdot : Bool)
    → Begun cur len before
    → name_byte c ≡ true
    → (len ≡ 0 → c ≢ b'.')
    → (afterdot ≡ false → c ≢ b'.')
    → Begun (cur ++ c ∷ []) (len + 1) afterdot
Begun-push cur len c before afterdot (size, head, _, bytes) ok first dot = (
  length-append cur (c ∷ []) ∙ ap (λ k. k + 1) size,
  HeadNotDot-push cur c head (λ e. first (omega arith)),
  λ e. LastNotDot-push cur c (dot e),
  All-push cur c bytes ok,
)

-- Bytes of longer UTF-8 sequences may always follow.
Begun-high :
    (xs cur : List ℕ) (len : ℕ) (afterdot : Bool)
    → All (λ c. 128 ≤ c) xs
    → Begun cur len afterdot
    → Begun (cur ++ xs) (len + length xs) afterdot
Begun-high [] cur len afterdot h b =
    let same : len + 0 ≡ len = omega arith in rw (append-nil, same) b
Begun-high (x ∷ xs) cur len afterdot (h, hs) b =
    let same : len + suc (length xs) ≡ len + 1 + length xs = omega arith in
    let joined : cur ++ x ∷ xs ≡ (cur ++ x ∷ []) ++ xs = sym (append_assoc cur (x ∷ []) xs) in
    rw (same, joined)
      (Begun-high xs (cur ++ x ∷ []) (len + 1) afterdot hs (
        Begun-push cur len x afterdot afterdot b (ground arith) (λ _. omega arith)
          (λ _. omega arith)))

components_from-high :
    (xs cur ys : List ℕ)
    → All (λ c. 128 ≤ c) xs
    → components_from cur (xs ++ ys) ≡ components_from (cur ++ xs) ys
unfolding components_from
components_from-high [] cur ys h = rw append-nil refl
components_from-high (x ∷ xs) cur ys (h, hs) =
    let plain : is_slash x ≡ false = ground arith in
    rw plain (
      components_from-high xs (cur ++ x ∷ []) ys hs
      ∙ ap (λ zs. components_from zs ys) (append_assoc cur (x ∷ []) xs))

flush-safe :
    (cur : List ℕ) (rest : List (List ℕ))
    → IsSafeName cur
    → All IsSafeName rest
    → All IsSafeName (flush cur rest)
flush-safe [] rest h hs = hs
flush-safe (x ∷ xs) rest h hs = (h, hs)

Begun-IsSafeName :
    (cur : List ℕ) (len : ℕ)
    → Begun cur len false
    → ltb len safe_filename_max ≡ true
    → IsSafeName cur
Begun-IsSafeName cur len (size, head, last, bytes) short = (head, last refl, ground arith, bytes)

-- What an accepting run says of the path from `i`, where `cur` has been read since the last slash.
abbrev Accepts : Mem → ℕ → List ℕ → Run Bool → Type 0
Accepts path i cur (done true) =
    (n : ℕ) × (path (i + n) ≡ 0)
    × All (λ c. c ≢ 0) (slice path i n)
    × (i + n < safe_path_max)
    × All IsSafeName (components_from cur (slice path i n))
Accepts path i cur (done false) = Unit
Accepts path i cur out_of_fuel = Unit

All-append :
    (xs ys : List ℕ) → All (λ c. 128 ≤ c) xs → All (λ c. c ≢ 0) ys → All (λ c. c ≢ 0) (xs ++ ys)
All-append [] ys h hs = hs
All-append (x ∷ xs) ys (h, r) hs = (omega arith, All-append xs ys r hs)

module _ (path : Mem) (i : ℕ) (cur : List ℕ) where
  -- One byte of a name.
  Accepts-byte :
      (x : Run Bool)
      → path i ≢ 0
      → is_slash (path i) ≡ false
      → Accepts path (i + 1) (cur ++ path i ∷ []) x
      → Accepts path i cur x
  unfolding components_from
  Accepts-byte (done true) nz plain (n, z, nzs, below, names) =
      let same : i + 1 + n ≡ i + suc n = omega arith in
      (suc n, rw same at z, (nz, nzs), rw same at below, rw plain names)
  Accepts-byte (done false) nz plain h = tt
  Accepts-byte out_of_fuel nz plain h = tt

  -- A slash ends the name.
  Accepts-slash :
      (x : Run Bool)
      → path i ≡ b'/'
      → IsSafeName cur
      → Accepts path (i + 1) [] x
      → Accepts path i cur x
  unfolding components_from
  Accepts-slash (done true) e safe (n, z, nzs, below, names) =
      let same : i + 1 + n ≡ i + suc n = omega arith in
      let slash : is_slash (path i) ≡ true = ground arith in
      (
        suc n,
        rw same at z,
        (omega arith, nzs),
        rw same at below,
        rw slash (flush-safe cur _ safe names),
      )
  Accepts-slash (done false) e safe h = tt
  Accepts-slash out_of_fuel e safe h = tt

  -- A longer UTF-8 sequence.
  Accepts-high :
      (r : ℕ) (x : Run Bool)
      → All (λ c. 128 ≤ c) (slice path i r)
      → Accepts path (i + r) (cur ++ slice path i r) x
      → Accepts path i cur x
  Accepts-high r (done true) high (n, z, nzs, below, names) =
      let same : i + r + n ≡ i + (r + n) = omega arith in
      (
        r + n,
        rw same at z,
        rw slice-append (All-append (slice path i r) _ high nzs),
        rw same at below,
        rw slice-append
            (rw (components_from-high (slice path i r) cur (slice path (i + r) n) high) names),
      )
  Accepts-high r (done false) high h = tt
  Accepts-high r out_of_fuel high h = tt

  -- The end of the path.
  Accepts-end : path i ≡ 0 → i < safe_path_max → IsSafeName cur → Accepts path i cur (done true)
  unfolding components_from
  Accepts-end z below safe =
      let same : i + 0 ≡ i = omega arith in
      (0, rw same z, tt, rw same below, flush-safe cur [] safe tt)

-- A byte of the table is no slash, dot or NUL.
table_byte :
    (c : ℕ)
    → h2esq_path_safe_table c ≡ true
    → (c ≢ 0) × (is_slash c ≡ false) × (c ≢ b'.') × (name_byte c ≡ true)
unfolding h2esq_path_safe_table
table_byte c h = (ground arith, ground arith, ground arith, ground arith)

dot_byte : (c : ℕ) → c ≡ b'.' → (c ≢ 0) × (is_slash c ≡ false) × (name_byte c ≡ true)
unfolding h2esq_path_safe_table
dot_byte c h = (ground arith, ground arith, ground arith)

-- A turn of the loop on one byte, where the runs behind it are right.
turn-Accepts :
    (path : Mem) (i len : ℕ) (afterdot : Bool) (cur : List ℕ) (c : ℕ)
    → c ≡ path i
    → Begun cur len afterdot
    → i < safe_path_max
    → ltb len safe_filename_max ≡ true
    → (plain slash dot : Run Bool)
    → (Begun (cur ++ path i ∷ []) (len + 1) false → Accepts path (i + 1) (cur ++ path i ∷ []) plain)
    → (Begun [] 0 false → Accepts path (i + 1) [] slash)
    → (Begun (cur ++ path i ∷ []) (len + 1) true → Accepts path (i + 1) (cur ++ path i ∷ []) dot)
    → Accepts path i cur (
        if h2esq_path_safe_table c
        then plain
        else if c == b'/'
        then (if afterdot then done false else slash)
        else if c == 0
        then (if afterdot then done false else done true)
        else if c == b'.'
        then (if len == 0 then done false else dot)
        else done false)
turn-Accepts path i len afterdot cur c at b below short plain slash dot to_plain to_slash to_dot =
    elim (Bool-cases (h2esq_path_safe_table c)) [
      | inl t ↦
          let (nz, plain_byte, no_dot, ok) = table_byte (path i) (rw at at t) in
          rw t (
            Accepts-byte path i cur plain nz plain_byte (
              to_plain
                (Begun-push cur len (path i) afterdot false b ok (λ _. no_dot) (λ _. no_dot))))
      | inr t ↦ rw t (elim (Bool-cases (c == b'/')) [
        | inl s ↦ rw s (elim (Bool-cases afterdot) [
          | inl after ↦ rw after tt
          | inr free ↦ rw free (
              Accepts-slash path i cur slash (sym at ∙ ground arith)
                (Begun-IsSafeName cur len (rw free at b) short)
                (to_slash (refl, tt, (λ _. tt), tt)))
        ])
        | inr s ↦ rw s (elim (Bool-cases (c == 0)) [
          | inl z ↦ rw z (elim (Bool-cases afterdot) [
            | inl after ↦ rw after tt
            | inr free ↦ rw free (
                Accepts-end path i cur (sym at ∙ ground arith) below
                  (Begun-IsSafeName cur len (rw free at b) short))
          ])
          | inr z ↦ rw z (elim (Bool-cases (c == b'.')) [
            | inr d ↦ rw d tt
            | inl d ↦ rw d (elim (Bool-cases (len == 0)) [
              | inl first ↦ rw first tt
              | inr later ↦
                  let (nz, plain_byte, ok) = dot_byte (path i) (sym at ∙ ground arith) in
                  rw later (
                    Accepts-byte path i cur dot nz plain_byte (
                      to_dot (
                        Begun-push cur len (path i) afterdot true b ok (λ e. absurd (ground arith))
                          (λ e. cc e))))
            ])
          ])
        ])
      ])
    ]

module _ (path : Mem) (i r c : ℕ) (code : IsCode (λ j. path (i + j)) r c) where
  code_one : (r == 1) ≡ true → c ≡ path i
  code_one one =
      let is_one : r ≡ 1 = ground arith in
      elim code [
        | inl (_, e) ↦ e ∙ ap path (let z : i + 0 ≡ i = omega arith in z)
        | inr (two, _, _, _, _) ↦ absurd (omega (arith, is_one))
      ]

  code_longer : (r == 1) ≡ false → All (λ c. 128 ≤ c) (slice path i r)
  code_longer longer = elim code [
    | inl (one, _) ↦ absurd (ground arith)
    | inr (_, _, high, _, _) ↦
        let same : i + 0 ≡ i = omega arith in
        subst (All (λ c. 128 ≤ c)) (slice_shift path i 0 r ∙ ap (λ k. slice path k r) same) high
  ]

safe_loop-Accepts :
    (fuel : ℕ) (path : Mem) (i len : ℕ) (afterdot : Bool) (cur : List ℕ)
    → Begun cur len afterdot
    → Accepts path i cur (safe_loop fuel path i len afterdot)
unfolding safe_loop
safe_loop-Accepts zero path i len afterdot cur b = tt
safe_loop-Accepts (suc fuel) path i len afterdot cur b = elim (Bool-cases (ltb i safe_path_max)) [
  | inr long ↦ rw long tt
  | inl below ↦ rw below (elim (Bool-cases (ltb len safe_filename_max)) [
    | inr long ↦ rw long tt
    | inl short ↦ rw short (elim (Option-cases (get_code_from_utf8 (λ j. path (i + j)))) [
      | inl bad ↦ rw bad tt
      | inr ((r, c), e) ↦
          let code : IsCode (λ j. path (i + j)) r c = get_code_from_utf8-IsCode _ r c e in
          rw e (elim (Bool-cases (r == 1)) [
            | inr longer ↦
                let high : All (λ c. 128 ≤ c) (slice path i r) =
                  code_longer path i r c code longer in
                let same : len + length (slice path i r) ≡ len + r =
                  ap (λ k. len + k) (length-slice path i r) in
                rw longer (
                  Accepts-high path i cur r _ high (
                    safe_loop-Accepts fuel path (i + r) (len + r) afterdot (cur ++ slice path i r)
                      (rw same at (Begun-high (slice path i r) cur len afterdot high b))))
            | inl one ↦
                let at : c ≡ path i = code_one path i r c code one in
                rw one (
                  turn-Accepts path i len afterdot cur c at b (ltb→lt _ _ below) short _ _ _
                    (λ b'.
                      safe_loop-Accepts fuel path (i + 1) (len + 1) false (cur ++ path i ∷ []) b')
                    (λ b'. safe_loop-Accepts fuel path (i + 1) 0 false [] b')
                    (λ b'.
                      safe_loop-Accepts fuel path (i + 1) (len + 1) true (cur ++ path i ∷ []) b'))
          ])
    ])
  ])
]

not_slash : (c : ℕ) → (c == b'/') ≡ false → c ≢ b'/'
not_slash c h = ground arith

-- A path that `path_is_very_safe` accepts ends within 2048 bytes and does not begin with a slash,
-- and each of its names neither begins nor ends with a dot (so none is "." or ".."), is shorter than
-- 255 bytes, and has only bytes of the table, dots and bytes of longer UTF-8 sequences.
pub path_is_very_safe-IsSafeName :
    (path : Mem)
    → path_is_very_safe path ≡ done true
    → (n : ℕ) × (path n ≡ 0)
      × All (λ c. c ≢ 0) (slice path 0 n)
      × (n < 2048)
      × (path 0 ≢ b'/')
      × All IsSafeName (components (slice path 0 n))
unfolding path_is_very_safe components
path_is_very_safe-IsSafeName path h = elim (Bool-cases (path 0 == b'/')) [
  | inl slash ↦ absurd (cc (rw slash at h))
  | inr other ↦
      let run : safe_loop (safe_path_max + 1) path 0 0 false ≡ done true = rw other at h in
      let (n, z, nzs, below, names) =
        subst (Accepts path 0 []) run
          (safe_loop-Accepts (safe_path_max + 1) path 0 0 false [] (refl, tt, (λ _. tt), tt)) in
      let same : 0 + n ≡ n = omega arith in
      (n, rw same at z, nzs, rw same at below, not_slash (path 0) other, names)
]
