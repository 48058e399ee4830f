-- ===== src/Slash.antt =====
-- libs/find-last-slash/find-last-slash.c and
-- libs/remove-redundancy-slash/remove-redundancy-slash.c, over byte memory.
pub mod FindLast
pub mod Squeeze
pub mod Components
mod Tests
use esq.Base.{
  ℕ, zero, suc, ◌+◌, Bool, true, false, ◌||◌, Option, none, some, ◌==◌, if◌then◌else◌, Mem, store,
  Run, done, out_of_fuel,
}

-- '/' or '\\'
abbrev pub is_slash : ℕ → Bool
is_slash c = c == b'/' || c == b'\\'

-- The loop of `find_last_slash` at `i`, with the result -1 as `none`.
unfoldable pub find_last_slash_loop : ℕ → Mem → ℕ → Option ℕ → Run (Option ℕ)
find_last_slash_loop zero b i p = out_of_fuel
find_last_slash_loop (suc fuel) b i p =
    let rest = find_last_slash_loop fuel b (i + 1) (if is_slash (b i) then some i else p) in
    if b i == 0 then done p else rest

-- On a string with its NUL before `fuel`.
unfoldable pub find_last_slash : ℕ → Mem → Run (Option ℕ)
unfolding find_last_slash_loop
find_last_slash fuel b = find_last_slash_loop fuel b 0 none

-- The loop of `find_last_slash2` with `n` bytes to go.
unfoldable pub find_last_slash2_loop : Mem → ℕ → Option ℕ → ℕ → Option ℕ
find_last_slash2_loop b i p zero = p
find_last_slash2_loop b i p (suc n) =
    find_last_slash2_loop b (i + 1) (if is_slash (b i) then some i else p) n

unfoldable pub find_last_slash2 : Mem → ℕ → Option ℕ
unfolding find_last_slash2_loop
find_last_slash2 b len = find_last_slash2_loop b 0 none len

-- The loop of `remove_redundancy_slash`: read at `i`, write at `o`. The flag is the state
-- S_AFTER_SLASH.
unfoldable pub remove_loop : ℕ → Mem → ℕ → ℕ → Bool → Run (ℕ × Mem)
remove_loop zero b i o after = out_of_fuel
remove_loop (suc fuel) b i o after =
    let slash = remove_loop fuel b (i + 1) o true in
    let plain = remove_loop fuel (store b o (b i)) (i + 1) (o + 1) false in
    let both = remove_loop fuel (store (store b o b'/') (o + 1) (b i)) (i + 1) (o + 1 + 1) false in
    if is_slash (b i)
    then slash
    else if b i == 0
    then done (o, store b o 0)
    else if after
    then both
    else plain

unfoldable pub remove_redundancy_slash : ℕ → Mem → Run (ℕ × Mem)
unfolding remove_loop
remove_redundancy_slash fuel b = remove_loop fuel b 0 0 false
