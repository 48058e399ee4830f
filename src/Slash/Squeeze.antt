-- ===== src/Slash/Squeeze.antt =====
-- `remove_redundancy_slash` in place against the same on a list.
use esq.Base.{
  ℕ, zero, suc, ◌+◌, ◌<◌, ◌≤◌, ◌≡◌, ◌≢◌, refl, ap, ◌∙◌, inl, inr, Bool, true, false, List, [], ◌∷◌,
  ◌++◌, append-nil, append_assoc, arith, ◌==◌, if◌then◌else◌, Bool-cases, length, All, Mem, store,
  slice, slice-store_below, slice-store_behind, slice-store_push, store_self, store_ne, Run, done,
  out_of_fuel,
}
use esq.Slash.{is_slash, remove_loop, remove_redundancy_slash}

-- Each run of slashes becomes one '/' in front of the next byte, and one at the end goes.
unfoldable pub squeeze : Bool → List ℕ → List ℕ
squeeze after [] = []
squeeze after (c ∷ r) =
    let slash = squeeze true r in
    let rest = squeeze false r in
    if is_slash c then slash else if after then b'/' ∷ c ∷ rest else c ∷ rest

-- What a run from `o` written bytes must give where `out` is still to be written.
abbrev Meets : Mem → ℕ → List ℕ → Run (ℕ × Mem) → Type 0
Meets b o out (done (r, b')) =
    (r ≡ o + length out)
    × (slice b' 0 (o + length out) ≡ slice b 0 o ++ out)
    × (b' (o + length out) ≡ 0)
Meets b o out out_of_fuel = ⊥

Meets-store :
    (b : Mem) (o c : ℕ) (out : List ℕ) (x : Run (ℕ × Mem))
    → Meets (store b o c) (o + 1) out x
    → Meets b o (c ∷ out) x
Meets-store b o c out (done (r, b')) (e, got, z) =
    let shift : o + suc (length out) ≡ o + 1 + length out = omega arith in
    rw shift (e, got ∙ rw slice-store_push (append_assoc (slice b 0 o) (c ∷ []) out), z)
Meets-store b o c out out_of_fuel h = h

Meets-nil : (b : Mem) (o : ℕ) → Meets b o [] (done (o, store b o 0))
Meets-nil b o =
    let same : o + 0 ≡ o = omega arith in
    rw same (refl, rw append-nil (slice-store_behind b o 0 0 o (omega arith)), store_self b o 0)

-- How far the writing is behind the reading.
abbrev gap : Bool → ℕ
gap after = if after then 1 else 0

remove_loop-Meets :
    (fuel n : ℕ) (b : Mem) (i o : ℕ) (after : Bool)
    → o + gap after ≤ i
    → All (λ c. c ≢ 0) (slice b i n)
    → b (i + n) ≡ 0
    → n < fuel
    → Meets b o (squeeze after (slice b i n)) (remove_loop fuel b i o after)
unfolding remove_loop squeeze
remove_loop-Meets zero n b i o after g nz z f = absurd (omega arith)
remove_loop-Meets (suc fuel) zero b i o after g nz z f =
    let end : b i ≡ 0 = ap b (let e : i ≡ i + 0 = omega arith in e) ∙ z in rw end (Meets-nil b o)
remove_loop-Meets (suc fuel) (suc n) b i o after g (nz, nzs) z f =
    let z' : b (i + 1 + n) ≡ 0 = ap b (let e : i + 1 + n ≡ i + suc n = omega arith in e) ∙ z in
    let more : (b i == 0) ≡ false = ground arith in
    elim (Bool-cases (is_slash (b i))) [
      | inl slash ↦
          rw slash (remove_loop-Meets fuel n b (i + 1) o true (ground arith) nzs z' (omega arith))
      | inr plain ↦
          rw (plain, more)
            (elim (Bool-cases after) [
              | inl t ↦
                  let ahead : o + 1 ≤ i = ground arith in
                  rw t (
                    Meets-store b o b'/' (b i ∷ squeeze false (slice b (i + 1) n)) _ (
                      Meets-store b1 (o + 1) (b i) (squeeze false (slice b (i + 1) n)) _ (
                        rw (both ahead) at (
                          remove_loop-Meets fuel n b2 (i + 1) (o + 1 + 1) false (omega arith)
                            (rw (both ahead) nzs)
                            (store_ne b1 (o + 1) (b i) (i + 1 + n) (omega arith)
                              ∙ store_ne b o b'/' (i + 1 + n) (omega arith)
                              ∙ z')
                            (omega arith)))))
              | inr e ↦
                  let ahead : o ≤ i = ground arith in
                  let once : slice (store b o (b i)) (i + 1) n ≡ slice b (i + 1) n =
                    slice-store_below b o (b i) (i + 1) n (omega arith) in
                  rw e (
                    Meets-store b o (b i) _ _ (
                      rw once at (
                        remove_loop-Meets fuel n (store b o (b i)) (i + 1) (o + 1) false
                          (omega arith) (rw once nzs)
                          (store_ne b o (b i) (i + 1 + n) (omega arith) ∙ z') (omega arith))))
            ])
    ]
  where
    b1 : Mem
    b1 = store b o b'/'

    b2 : Mem
    b2 = store b1 (o + 1) (b i)

    both : o + 1 ≤ i → slice b2 (i + 1) n ≡ slice b (i + 1) n
    both h =
        slice-store_below b1 (o + 1) (b i) (i + 1) n (omega arith)
        ∙ slice-store_below b o b'/' (i + 1) n (omega arith)

-- `remove_redundancy_slash` on a string of `n` bytes leaves in place the string that `squeeze` makes
-- of it, ended by a NUL, and returns its length. The fuel suffices if it exceeds the length.
pub remove_redundancy_slash-squeeze :
    (fuel n : ℕ) (b : Mem)
    → All (λ c. c ≢ 0) (slice b 0 n)
    → b n ≡ 0
    → n < fuel
    → (b' : Mem) × (remove_redundancy_slash fuel b
        ≡ done (length (squeeze false (slice b 0 n)), b'))
      × (slice b' 0 (length (squeeze false (slice b 0 n))) ≡ squeeze false (slice b 0 n))
      × (b' (length (squeeze false (slice b 0 n))) ≡ 0)
unfolding remove_redundancy_slash
remove_redundancy_slash-squeeze fuel n b nz z f =
    read (squeeze false (slice b 0 n)) (remove_loop fuel b 0 0 false) (
      remove_loop-Meets fuel n b 0 0 false (omega arith) nz
        (ap b (let e : 0 + n ≡ n = omega arith in e) ∙ z) f)
  where
    read :
        (out : List ℕ) (x : Run (ℕ × Mem))
        → Meets b 0 out x
        → (b' : Mem) × (x ≡ done (length out, b'))
          × (slice b' 0 (length out) ≡ out)
          × (b' (length out) ≡ 0)
    read out (done (r, b')) (e, got, zero_end) =
        let same : 0 + length out ≡ length out = omega arith in
        (b', ap (λ (k : ℕ). done (k, b')) (e ∙ same), rw same at got, rw same at zero_end)
    read out out_of_fuel h = absurd h
