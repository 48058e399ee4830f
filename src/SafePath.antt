-- ===== src/SafePath.antt =====
-- libs/path-is-very-safe/path-is-very-safe.c: the test of a path from a request before it is
-- joined to a local directory.
pub mod Sound
pub mod Total
mod Tests
use esq.Base.{
  ℕ, zero, suc, ◌+◌, Bool, true, false, not, ◌||◌, none, some, ltb, ◌==◌, if◌then◌else◌, within,
  Mem, Run, done, out_of_fuel,
}
use esq.Utf8.{Fetched, get_code_from_utf8}

abbrev pub safe_path_max : ℕ
safe_path_max = 2048

abbrev pub safe_filename_max : ℕ
safe_filename_max = 255

-- `h2esq_path_safe_table`
unfoldable pub h2esq_path_safe_table : ℕ → Bool
h2esq_path_safe_table c =
    c == b'+'
    || c == b'-'
    || within b'0' b'9' c
    || within b'A' b'Z' c
    || c == b'_'
    || within b'a' b'z' c

-- The loop of `path_is_very_safe` at `i`, with `len` for `filename_len`.
unfoldable pub safe_loop : ℕ → Mem → ℕ → ℕ → Bool → Run Bool
unfolding h2esq_path_safe_table
safe_loop zero path i len afterdot = out_of_fuel
safe_loop (suc fuel) path i len afterdot =
    let utf8 = λ (r : ℕ). safe_loop fuel path (i + r) (len + r) afterdot in
    let plain = safe_loop fuel path (i + 1) (len + 1) false in
    let slash = safe_loop fuel path (i + 1) 0 false in
    let dot = safe_loop fuel path (i + 1) (len + 1) true in
    if not (ltb i safe_path_max)
    then done false
    else if not (ltb len safe_filename_max)
    then done false
    else elim (get_code_from_utf8 (λ j. path (i + j))) [
      | none ↦ done false
      | some (r, c) ↦
          if not (r == 1)
          then utf8 r
          else if h2esq_path_safe_table c
          then plain
          else if c == b'/'
          then (if afterdot then done false else slash)
          else if c == 0
          then (if afterdot then done false else done true)
          else if c == b'.'
          then (if len == 0 then done false else dot)
          else done false
    ]

-- A turn of the loop moves on by a byte or more, so there are at most `safe_path_max` turns and the
-- one that ends.
unfoldable pub path_is_very_safe : Mem → Run Bool
unfolding safe_loop
path_is_very_safe path =
    let run = safe_loop (safe_path_max + 1) path 0 0 false in
    if path 0 == b'/' then done false else run
