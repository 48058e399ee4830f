-- ===== src/EscapePercent/InPlace.antt =====
-- Decoding in place against decoding into a fresh list.
use esq.Base.{
  ℕ, zero, suc, ◌+◌, ◌-◌, ◌<◌, ◌≤◌, ◌≡◌, ◌↔◌, refl, ◌∙◌, inl, inr, true, false, Option, none, some,
  List, [], ◌∷◌, ◌++◌, append-nil, append_assoc, arith, ltb, ◌==◌, if◌then◌else◌, Bool-cases,
  Option-cases, length, Mem, store, slice, slice-store_below, slice-store_push, store_ne, Run, done,
  out_of_fuel,
}
use mathlib.Core.Path.{subst}
use esq.EscapePercent.{Escaped, hex_pair, with_code, escape_loop, escape_percent_in_place}

abbrev pub push : ℕ → Option (List ℕ) → Option (List ℕ)
push c none = none
push c (some r) = some (c ∷ r)

-- Percent decoding as a function on the whole list: none at a '%' that two hexadecimal digits do
-- not follow.
unfoldable pub decode : List ℕ → Option (List ℕ)
decode [] = some []
decode (c ∷ []) = if c == b'%' then none else some (c ∷ [])
decode (c ∷ d ∷ []) = let plain = push c (decode (d ∷ [])) in if c == b'%' then none else plain
decode (c ∷ d ∷ e ∷ r) =
    let plain = push c (decode (d ∷ e ∷ r)) in
    let escaped = λ (k : ℕ). push k (decode r) in
    if c == b'%' then elim (hex_pair d e) [ none ↦ none | some k ↦ escaped k ] else plain

pub decode-plain : (c : ℕ) (r : List ℕ) → (c == b'%') ≡ false → decode (c ∷ r) ≡ push c (decode r)
unfolding decode
decode-plain c [] h = rw h
decode-plain c (d ∷ []) h = rw h
decode-plain c (d ∷ e ∷ r) h = rw h

decode_one : (c : ℕ) → (c == b'%') ≡ true → decode (c ∷ []) ≡ none
unfolding decode
decode_one c h = rw h

decode_two : (c d : ℕ) → (c == b'%') ≡ true → decode (c ∷ d ∷ []) ≡ none
unfolding decode
decode_two c d h = rw h

module _ (c d e : ℕ) (r : List ℕ) (percent : (c == b'%') ≡ true) where
  pub decode_digits : (k : ℕ) → hex_pair d e ≡ some k → decode (c ∷ d ∷ e ∷ r) ≡ push k (decode r)
  unfolding decode
  decode_digits k h = rw (percent, h)

  pub decode_bad : hex_pair d e ≡ none → decode (c ∷ d ∷ e ∷ r) ≡ none
  unfolding decode
  decode_bad h = rw (percent, h)

-- What a run from `w` written bytes must give where the rest of the buffer decodes to `out`.
abbrev Meets : ℕ → Mem → ℕ → Option (List ℕ) → Run Escaped → Type 0
Meets l m w none (done (r, m')) = (r ≡ none) × ((q : ℕ) → l ≤ q → m' q ≡ m q)
Meets l m w (some out) (done (r, m')) =
    (r ≡ some (w + length out))
    × (slice m' 0 (w + length out) ≡ slice m 0 w ++ out)
    × ((q : ℕ) → l ≤ q → m' q ≡ m q)
Meets l m w o out_of_fuel = ⊥

-- One byte written at `w`.
Meets-store :
    (l : ℕ) (m : Mem) (w c : ℕ) (o : Option (List ℕ)) (x : Run Escaped)
    → w < l
    → Meets l (store m w c) (w + 1) o x
    → Meets l m w (push c o) x
Meets-store l m w c none (done (r, m')) lt (e, same) =
    (e, λ q b. same q b ∙ store_ne m w c q (omega arith))
Meets-store l m w c (some out) (done (r, m')) lt (e, got, same) =
    let shift : w + suc (length out) ≡ w + 1 + length out = omega arith in
    rw shift (
      e,
      got ∙ rw slice-store_push (append_assoc (slice m 0 w) (c ∷ []) out),
      λ q b. same q b ∙ store_ne m w c q (omega arith),
    )
Meets-store l m w c none out_of_fuel lt h = h
Meets-store l m w c (some out) out_of_fuel lt h = h

Meets-nil : (l : ℕ) (m : Mem) (w : ℕ) → Meets l m w (decode []) (done (some w, m))
unfolding decode
Meets-nil l m w =
    let same : w + 0 ≡ w = omega arith in rw same (refl, rw append-nil refl, λ q b. refl)

-- At a '%': what is short or no hexadecimal digit is refused, anything else is one byte of output.
Meets-percent :
    (n l : ℕ) (m : Mem) (i w : ℕ) (loop : ℕ → Run Escaped)
    → (m i == b'%') ≡ true
    → l ≡ i + suc n
    → w ≤ i
    → ((k code : ℕ)
        → n ≡ suc (suc k)
        → Meets l (store m w code) (w + 1) (decode (slice m (i + 3) k)) (loop code))
    → Meets l m w (decode (slice m i (suc n))) (
        if ltb (l - i) 3
        then done (none, m)
        else with_code (hex_pair (m (i + 1)) (m (i + 2))) m loop)
Meets-percent zero l m i w loop h e wi next =
    let short : ltb (l - i) 3 ≡ true = ground arith in
    rw (short, decode_one _ h) (refl, λ q b. refl)
Meets-percent (suc zero) l m i w loop h e wi next =
    let short : ltb (l - i) 3 ≡ true = ground arith in
    rw (short, decode_two _ _ h) (refl, λ q b. refl)
Meets-percent (suc (suc k)) l m i w loop h e wi next =
    let long : ltb (l - i) 3 ≡ false = ground arith in
    let two : i + 1 + 1 ≡ i + 2 = omega arith in
    let three : i + 2 + 1 ≡ i + 3 = omega arith in
    rw (long, two, three)
      (elim (Option-cases (hex_pair (m (i + 1)) (m (i + 2)))) [
        | inl bad ↦ rw (bad, decode_bad _ _ _ _ h bad) (refl, λ q b. refl)
        | inr (code, good) ↦
            rw (good, decode_digits _ _ _ _ h code good)
              (Meets-store l m w code _ _ (omega arith) (next k code refl))
      ])

-- The loop decodes the `n` bytes that it has not yet read, and writes behind what it has written.
escape_loop-Meets :
    (fuel n l : ℕ) (m : Mem) (i w : ℕ)
    → w ≤ i
    → l ≡ i + n
    → n < fuel
    → Meets l m w (decode (slice m i n)) (escape_loop fuel l m i w)
unfolding escape_loop
escape_loop-Meets zero n l m i w wi e lf = absurd (omega arith)
escape_loop-Meets (suc fuel) zero l m i w wi e lf =
    let end : ltb i l ≡ false = ground arith in rw end (Meets-nil l m w)
escape_loop-Meets (suc fuel) (suc n) l m i w wi e lf =
    let more : ltb i l ≡ true = ground arith in
    rw more (elim (Bool-cases (m i == b'%')) [
      | inr plain ↦ rw plain (
          rw (decode-plain (m i) (slice m (i + 1) n) plain) (
            Meets-store l m w (m i) _ _ (omega arith) (
              rw (slice-store_below m w (m i) (i + 1) n (omega arith)) at (
                escape_loop-Meets fuel n l (store m w (m i)) (i + 1) (w + 1) (omega arith)
                  (omega arith) (omega arith)))))
      | inl percent ↦ rw percent (
          Meets-percent n l m i w _ percent e wi λ k code two.
            rw (slice-store_below m w code (i + 3) k (omega arith)) at (
              escape_loop-Meets fuel k l (store m w code) (i + 3) (w + 1) (omega arith)
                (omega arith) (omega arith)))
    ])

-- Percent decoding in place gives -1 exactly where decoding the buffer into a fresh list fails.
-- Otherwise it returns the length of the decoded text, and the buffer begins with that text. Bytes
-- behind the buffer are not written, and the fuel given suffices.
pub escape_percent_in_place-decode :
    (m : Mem) (l : ℕ)
    → (r : Option ℕ) × (m' : Mem) × (escape_percent_in_place m l ≡ done (r, m'))
      × ((r ≡ none) ↔ (decode (slice m 0 l) ≡ none))
      × ((out : List ℕ)
          → decode (slice m 0 l) ≡ some out
          → (r ≡ some (length out)) × (slice m' 0 (length out) ≡ out))
      × ((q : ℕ) → l ≤ q → m' q ≡ m q)
unfolding escape_percent_in_place
escape_percent_in_place-decode m l =
    read (decode (slice m 0 l)) (escape_loop (l + 1) l m 0 0)
      (escape_loop-Meets (l + 1) l l m 0 0 (omega arith) (omega arith) (omega arith))
  where
    read :
        (o : Option (List ℕ)) (x : Run Escaped)
        → Meets l m 0 o x
        → (r : Option ℕ) × (m' : Mem) × (x ≡ done (r, m'))
          × ((r ≡ none) ↔ (o ≡ none))
          × ((out : List ℕ)
              → o ≡ some out
              → (r ≡ some (length out)) × (slice m' 0 (length out) ≡ out))
          × ((q : ℕ) → l ≤ q → m' q ≡ m q)
    read none (done (r, m')) (e, same) =
        (r, m', refl, ((λ _. refl), (λ _. e)), (λ out h. cc h), same)
    read (some o) (done (r, m')) (e, got, same) = (
      r,
      m',
      refl,
      ((λ h. cc (e, h)), (λ h. cc h)),
      λ out h.
          let z : 0 + length o ≡ length o = omega arith in
          let eq : o ≡ out = cc h in
          subst (λ x. (r ≡ some (length x)) × (slice m' 0 (length x) ≡ x)) eq
            (rw z at e, rw z at got),
      same,
    )
    read none out_of_fuel h = absurd h
    read (some o) out_of_fuel h = absurd h
