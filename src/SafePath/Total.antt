-- ===== src/SafePath/Total.antt =====
-- `path_is_very_safe` ends on every path.
use esq.Base.{
  ℕ, zero, suc, ◌+◌, ◌<◌, ◌≤◌, ◌≡◌, refl, inl, inr, Bool, true, false, arith, not, ltb, ltb→lt,
  ◌==◌, if◌then◌else◌, Bool-cases, Option-cases, Mem, Run, done, out_of_fuel,
}
use esq.Utf8.{get_code_from_utf8}
use esq.Utf8.Sound.{IsCode, get_code_from_utf8-IsCode}
use esq.SafePath.{
  safe_path_max, safe_filename_max, h2esq_path_safe_table, safe_loop, path_is_very_safe,
}

abbrev Ends : Run Bool → Type 0
Ends (done b) = Unit
Ends out_of_fuel = ⊥

Ends-if : (t : Bool) (x y : Run Bool) → Ends x → Ends y → Ends (if t then x else y)
Ends-if true x y h k = h
Ends-if false x y h k = k

IsCode-positive : (buf : Mem) (l c : ℕ) → IsCode buf l c → 1 ≤ l
IsCode-positive buf l c (inl (one, _)) = omega arith
IsCode-positive buf l c (inr (two, _, _, _, _)) = omega arith

safe_loop-Ends :
    (fuel : ℕ) (path : Mem) (i len : ℕ) (afterdot : Bool)
    → 0 < fuel
    → safe_path_max < i + fuel
    → Ends (safe_loop fuel path i len afterdot)
unfolding safe_loop
safe_loop-Ends zero path i len afterdot some_fuel h = absurd (omega arith)
safe_loop-Ends (suc fuel) path i len afterdot some_fuel h =
    elim (Bool-cases (ltb i safe_path_max)) [
      | inr long ↦ rw long tt
      | inl short ↦
          let below : i < safe_path_max = ltb→lt _ _ short in
          let next = λ (l : ℕ) (after : Bool).
            safe_loop-Ends fuel path (i + 1) l after (omega arith) (omega arith) in
          rw short (
            Ends-if (not (ltb len safe_filename_max)) _ _ tt
              (elim (Option-cases (get_code_from_utf8 (λ j. path (i + j)))) [
                | inl bad ↦ rw bad tt
                | inr ((r, c), e) ↦
                    let one_more : 1 ≤ r =
                      IsCode-positive _ r c (get_code_from_utf8-IsCode _ r c e) in
                    rw e (
                      Ends-if (not (r == 1)) _ _
                        (safe_loop-Ends fuel path (i + r) (len + r) afterdot (omega arith)
                          (omega arith))
                        (Ends-if (h2esq_path_safe_table c) _ _ (next (len + 1) false) (
                          Ends-if (c == b'/') _ _ (Ends-if afterdot _ _ tt (next 0 false)) (
                            Ends-if (c == 0) _ _ (Ends-if afterdot _ _ tt tt) (
                              Ends-if (c == b'.') _ _
                                (Ends-if (len == 0) _ _ tt (next (len + 1) true)) tt)))))
              ]))
    ]

-- `path_is_very_safe` returns on every path, also on one that no NUL ends: the bound on the number of
-- bytes ends its loop.
pub path_is_very_safe-returns : (path : Mem) → (r : Bool) × (path_is_very_safe path ≡ done r)
unfolding path_is_very_safe
path_is_very_safe-returns path = read _ (
    Ends-if (path 0 == b'/') _ _ tt
      (safe_loop-Ends (safe_path_max + 1) path 0 0 false (omega arith) (omega arith)))
  where
    read : (x : Run Bool) → Ends x → (r : Bool) × (x ≡ done r)
    read (done r) h = (r, refl)
    read out_of_fuel h = absurd h
