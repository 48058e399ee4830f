-- ===== src/HeadMatch/Match.antt =====
-- libs/head-match-tree/match.c
use esq.Base.{
  ℕ, zero, suc, ◌+◌, ◌-◌, Option, none, some, ltb, leb, ◌==◌, if◌then◌else◌, Mem, Run, done,
  out_of_fuel, ◌>>=◌,
}
use esq.HeadMatch.{Hmt, byte}
use esq.HeadMatch.Compile.{index}

-- The order of `char`, which has a sign.
abbrev pub signed : ℕ → ℕ
signed c = if ltb c 128 then c + 128 else c - 128

-- What is read from a table leads on, or to `__find_someone_else`.
abbrev pub jump : Option ℕ → Option ℕ → (ℕ → Run (Option ℕ)) → Run (Option ℕ)
jump none someone go = done someone
jump (some n) someone go = go n

-- The loop of `hmt_match` at `m` and `depth`: the item that is matched.
unfoldable pub match_loop : ℕ → Hmt → Mem → ℕ → ℕ → Run (Option ℕ)
match_loop zero pt string m depth = out_of_fuel
match_loop (suc fuel) pt string m depth =
    let c = string depth in
    let pc = byte pt m depth in
    let i = index pt m depth in
    let someone = pt.someone_else_matched_table i in
    let deeper =
      jump (pt.next_level_enter_point_table i) someone
        λ n. match_loop fuel pt string n (depth + 1) in
    let above = jump (pt.higher_jump_table i) someone λ n. match_loop fuel pt string n depth in
    let below = jump (pt.lower_jump_table i) someone λ n. match_loop fuel pt string n depth in
    if leb pt.pattern_len_max depth
    then done none
    else if pc == 0
    then done (some m)
    else if c == pc
    then deeper
    else if ltb (signed pc) (signed c)
    then above
    else below

-- The user data and `*matched_length`; `none` is NULL.
abbrev pub result : Hmt → Option ℕ → Option (ℕ × ℕ)
result pt none = none
result pt (some n) = some ((pt.items n).userdata, pt.patterns_length n)

unfoldable pub hmt_match : ℕ → Hmt → Mem → Run (Option (ℕ × ℕ))
unfolding match_loop
hmt_match fuel pt string = elim pt.enter_point [
  | none ↦ done none
  | some m ↦ match_loop fuel pt string m 0 >>= λ r. done (result pt r)
]
