-- ===== src/UrlParams/Escape.antt =====
-- `esq_url_parames_escape_in_place`: percent decoding of the names and values of split parameters.
use esq.Base.{
  ℕ, zero, suc, ◌+◌, ◌-◌, ◌<◌, ◌≤◌, ◌≡◌, ◌≢◌, sym, ap, subst, inl, inr, Option, none, some, arith,
  ltb, ◌==◌, if◌then◌else◌, Bool-cases, Mem, store, Run, done, out_of_fuel,
}
use esq.EscapePercent.{Escaped, escape_percent_in_place}
use esq.UrlParams.{Parameter, set_param, Result, esq_split_parameters}
use esq.UrlParams.Kept.{set_param_ne}
use esq.UrlParams.Outcome.{IsSplit, esq_split_parameters-IsSplit}

-- The return of 0 or -1 with the bytes and parameters in memory, a NULL pointer that is used, or a
-- decoder without fuel.
pub data Ending : Type 0 where
  escaped : Mem → (ℕ → Parameter) → Ending
  failed : Mem → (ℕ → Parameter) → Ending
  crash : Ending
  no_fuel : Ending

-- The memory where the bytes from `p` on are those of `b`.
abbrev splice : Mem → ℕ → Mem → Mem
splice m p b q = if ltb q p then m q else b (q - p)

-- What follows the call of the decoder on the bytes at `p`: a return of -1 ends in `bad`, and
-- otherwise a NUL goes behind the decoded bytes.
abbrev after_decode : Mem → ℕ → Run Escaped → (Mem → Ending) → (Mem → ℕ → Ending) → Ending
after_decode m p out_of_fuel bad good = no_fuel
after_decode m p (done (none, b)) bad good = bad (splice m p b)
after_decode m p (done (some r, b)) bad good = good (store (splice m p b) (p + r) 0) r

-- One text. With NULL the decoder reads it, or returns 0 for a length of 0 and the NUL is written
-- to it.
unfoldable pub escape_text : Mem → Option ℕ → ℕ → (Mem → Ending) → (Mem → ℕ → Ending) → Ending
unfolding escape_percent_in_place store
escape_text m none len bad good = crash
escape_text m (some p) len bad good =
    after_decode m p (escape_percent_in_place (λ j. m (p + j)) len) bad good

-- The loop at `i`, with `n` parameters to go.
unfoldable pub escape_params : ℕ → ℕ → Mem → (ℕ → Parameter) → Ending
unfolding escape_text set_param
escape_params zero i m params = escaped m params
escape_params (suc n) i m params =
    let p = params i in
    escape_text m p.name p.name_len (λ m1. failed m1 params)
      λ m1 r1.
        escape_text m1 p.value p.value_len
          (λ m2. failed m2 (set_param params i (record p { name_len = r1 })))
          λ m2 r2.
            escape_params n (i + 1) m2
              (set_param params i (record p { name_len = r1; value_len = r2 }))

unfoldable pub esq_url_parames_escape_in_place : Mem → (ℕ → Parameter) → ℕ → Ending
unfolding escape_params
esq_url_parames_escape_in_place m params param_max = escape_params param_max 0 m params

-- A text that is decoded is there.
escape_text-ne-null :
    (m : Mem) (p : Option ℕ) (len : ℕ) (bad : Mem → Ending) (good : Mem → ℕ → Ending) (m' : Mem)
    (ps' : ℕ → Parameter)
    → ((m1 : Mem) → bad m1 ≡ escaped m' ps' → ⊥)
    → escape_text m p len bad good ≡ escaped m' ps'
    → (p ≢ none) × ((m1 : Mem) × (r : ℕ) × (good m1 r ≡ escaped m' ps'))
unfolding escape_text
escape_text-ne-null m none len bad good m' ps' refused h = absurd (cc h)
escape_text-ne-null m (some p) len bad good m' ps' refused h =
    read (escape_percent_in_place (λ j. m (p + j)) len) h
  where
    read :
        (x : Run Escaped)
        → after_decode m p x bad good ≡ escaped m' ps'
        → (some p ≢ none) × ((m1 : Mem) × (r : ℕ) × (good m1 r ≡ escaped m' ps'))
    read out_of_fuel h = absurd (cc h)
    read (done (none, b)) h = absurd (refused _ h)
    read (done (some r, b)) h = ((λ e. cc e), (store (splice m p b) (p + r) 0, r, h))

failed_lem :
    (m : Mem) (ps : ℕ → Parameter) (m' : Mem) (ps' : ℕ → Parameter)
    → failed m ps ≡ escaped m' ps'
    → ⊥
failed_lem m ps m' ps' e = cc e

escape_params-ne-null :
    (n i : ℕ) (m : Mem) (params : ℕ → Parameter) (m' : Mem) (ps' : ℕ → Parameter)
    → escape_params n i m params ≡ escaped m' ps'
    → (j : ℕ) → i ≤ j
    → j < i + n
    → ((params j).name ≢ none) × ((params j).value ≢ none)
unfolding escape_params
escape_params-ne-null zero i m params m' ps' h j a b = absurd (omega arith)
escape_params-ne-null (suc n) i m params m' ps' h j a b =
    let (name, (m1, r1, h1)) =
      escape_text-ne-null m (params i).name (params i).name_len (λ m1. failed m1 params) _ m' ps'
        (λ m1. failed_lem m1 params m' ps') h in
    let (value, (m2, r2, h2)) =
      escape_text-ne-null m1 (params i).value (params i).value_len
        (λ m2. failed m2 (set_param params i (record (params i) { name_len = r1 }))) _ m' ps'
        (λ m2. failed_lem m2 _ m' ps') h1 in
    let later = escape_params-ne-null n (i + 1) m2 _ m' ps' h2 j in
    elim (Bool-cases (j == i)) [
      | inl at ↦
          let e : j ≡ i = ground arith in
          subst (λ k. ((params k).name ≢ none) × ((params k).value ≢ none)) (sym e) (name, value)
      | inr other ↦
          subst (λ p. (p.name ≢ none) × (p.value ≢ none)) (set_param_ne params i j _ (ground arith))
            (later (ground arith) (omega arith))
    ]

-- After a split, `esq_url_parames_escape_in_place` returns 0 only if the URL had as many parameters
-- as the array has room for, and each of them a value: it uses the NULL pointers of the others.
pub esq_url_parames_escape_in_place-ne-null :
    (url : Mem) (len : ℕ) (params : ℕ → Parameter) (param_max k : ℕ) (m' : Mem)
    (ps' : ℕ → Parameter)
    → (esq_split_parameters url len params param_max).count ≡ some k
    → esq_url_parames_escape_in_place
        (esq_split_parameters url len params param_max).url
        (esq_split_parameters url len params param_max).params
        param_max
      ≡ escaped m' ps'
    → (k ≡ param_max)
      × ((j : ℕ) → j < k → ((esq_split_parameters url len params param_max).params j).value ≢ none)
unfolding esq_url_parames_escape_in_place
esq_url_parames_escape_in_place-ne-null url len params param_max k m' ps' counted run =
    (full (s.count_small k counted), λ j b. (present j (omega (arith, s.count_small k counted))).1)
  where
    r : Result
    r = esq_split_parameters url len params param_max

    s : IsSplit url len params param_max r
    s = esq_split_parameters-IsSplit url len params param_max

    present : (j : ℕ) → j < param_max → ((r.params j).name ≢ none) × ((r.params j).value ≢ none)
    present j b =
        escape_params-ne-null param_max 0 r.url r.params m' ps' run j (omega arith) (omega arith)

    full : k ≤ param_max → k ≡ param_max
    full h = elim (Bool-cases (ltb k param_max)) [
      | inl less ↦
          let room : k < param_max = ground arith in
          absurd ((present k room).0 (ap (λ p. p.name) (s.rest k k counted (omega arith) room)))
      | inr at ↦ ground arith
    ]
