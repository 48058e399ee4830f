-- ===== src/HeadMatch/Compile.antt =====
-- libs/head-match-tree/compile.c: the tables of a matcher. `char` indices are numbers, as there are
-- fewer than 111 items.
use esq.Base.{
  ℕ, zero, suc, ◌+◌, ◌-◌, ◌*◌, ◌/◌, ◌^◌, Bool, true, false, ◌&&◌, Option, none, some, leb, ◌==◌,
  if◌then◌else◌, Mem, strnlen, Run, done, out_of_fuel, ◌>>=◌,
}
use esq.HeadMatch.{Hmt, Table, byte, hmt_free_content}

-- `(m << shift) + depth`
abbrev pub index : Hmt → ℕ → ℕ → ℕ
index pt m depth = m * 2 ^ pt.pattern_len_max_shift + depth

unfoldable pub put : Table → ℕ → Option ℕ → Table
put table i v j = if j == i then v else table j

-- The loops of `hmt_find_center_group_border`, `n` items down from `s` and up from `e`.
unfoldable pub border_down : Hmt → ℕ → ℕ → ℕ → ℕ → ℕ
border_down pt depth c zero s = s
border_down pt depth c (suc n) s =
    let rest = border_down pt depth c n (s - 1) in if byte pt (s - 1) depth == c then rest else s

unfoldable pub border_up : Hmt → ℕ → ℕ → ℕ → ℕ → ℕ
border_up pt depth c zero e = e
border_up pt depth c (suc n) e =
    let rest = border_up pt depth c n (e + 1) in if byte pt (e + 1) depth == c then rest else e

-- `*bs` and `*be`
unfoldable pub find_start : Hmt → ℕ → ℕ → ℕ → ℕ
unfolding border_down
find_start pt depth start end =
    let m = (start + end) / 2 in border_down pt depth (byte pt m depth) (m - start) m

unfoldable pub find_end : Hmt → ℕ → ℕ → ℕ → ℕ
unfolding border_up
find_end pt depth start end =
    let m = (start + end) / 2 in border_up pt depth (byte pt m depth) (end - m) m

-- A part of the items that may be empty, for which there is no jump.
abbrev pub part : Bool → Hmt → Run (Hmt × ℕ) → Run (Hmt × Option ℕ)
part true pt run = done (pt, none)
part false pt run = run >>= λ r. done (r.0, some r.1)

-- The jumps from the item `bs` at `depth`.
abbrev pub put_jumps : Hmt → ℕ → ℕ → Option ℕ → Option ℕ → Hmt
put_jumps pt bs depth above below = record pt {
  higher_jump_table = put pt.higher_jump_table (index pt bs depth) above;
  lower_jump_table = put pt.lower_jump_table (index pt bs depth) below;
}

abbrev pub put_next : Hmt → ℕ → ℕ → ℕ → Hmt
put_next pt bs depth n = record pt {
  next_level_enter_point_table = put pt.next_level_enter_point_table (index pt bs depth) (some n);
}

-- The result is the item where the search in the part begins.
unfoldable pub hmt_fill_jump_tables : ℕ → Hmt → ℕ → ℕ → ℕ → Run (Hmt × ℕ)
unfolding find_start find_end put
hmt_fill_jump_tables zero pt depth start end = out_of_fuel
hmt_fill_jump_tables (suc fuel) pt depth start end =
    let bs = find_start pt depth start end in
    let be = find_end pt depth start end in
    let filled = part (bs == start) pt (hmt_fill_jump_tables fuel pt depth start (bs - 1)) >>= λ a.
    part (be == end) a.0 (hmt_fill_jump_tables fuel a.0 depth (be + 1) end) >>= λ b.
    hmt_fill_jump_tables fuel (put_jumps b.0 bs depth a.1 b.1) (depth + 1) bs be >>= λ n.
    done (put_next n.0 bs depth n.1, bs) in
    if leb pt.pattern_len_max depth
    then done (pt, start)
    else if byte pt start depth == 0
    then done (pt, start)
    else filled

abbrev pub hmt_fill_patterns_length_table : Hmt → Hmt
hmt_fill_patterns_length_table pt = record pt {
  patterns_length = λ i. strnlen (pt.items i).pattern pt.pattern_len_max;
}

-- `!memcmp(a, b, n)`
unfoldable pub agree : Mem → Mem → ℕ → Bool
agree a b zero = true
agree a b (suc n) = agree a b n && a n == b n

-- The loop over `n` items `k` in `hmt_find_someone_else_matched`.
unfoldable pub else_loop : Hmt → ℕ → ℕ → ℕ → ℕ → Option ℕ
unfolding agree
else_loop pt idx i zero k = none
else_loop pt idx i (suc n) k =
    let rest = else_loop pt idx i n (k + 1) in
    if leb (i + 1) (pt.patterns_length k)
    then rest
    else if agree (pt.items idx).pattern (pt.items k).pattern (pt.patterns_length k)
    then some k
    else rest

-- The first `n` entries of `matches`.
unfoldable pub hmt_find_someone_else_matched : Hmt → ℕ → ℕ → Table → Table
unfolding else_loop put
hmt_find_someone_else_matched pt idx zero table = table
hmt_find_someone_else_matched pt idx (suc n) table =
    put (hmt_find_someone_else_matched pt idx n table) (index pt idx n)
      (else_loop pt idx n (pt.cnt - (idx + 1)) (idx + 1))

-- The loop of `hmt_fill_someone_else_matched_table` over the first `n` items.
unfoldable pub else_rows : Hmt → ℕ → Table → Table
unfolding hmt_find_someone_else_matched
else_rows pt zero table = table
else_rows pt (suc n) table =
    hmt_find_someone_else_matched pt n (pt.patterns_length n) (else_rows pt n table)

abbrev pub hmt_fill_someone_else_matched_table : Hmt → Hmt
hmt_fill_someone_else_matched_table pt = record pt {
  someone_else_matched_table = else_rows pt pt.cnt pt.someone_else_matched_table;
}

-- With `given`, whether there is memory for the tables. `none` is the return of -1.
unfoldable pub hmt_compile : ℕ → Bool → Hmt → Run (Hmt × Option ℕ)
unfolding hmt_fill_jump_tables else_rows strnlen
hmt_compile fuel given pt =
    let p =
      hmt_fill_someone_else_matched_table (hmt_fill_patterns_length_table (hmt_free_content pt)) in
    let filled = hmt_fill_jump_tables fuel p 0 0 (p.cnt - 1) >>= λ r.
    done (record (r.0) { enter_point = some (r.1) }, some 0) in
    if pt.cnt == 0
    then done (hmt_free_content pt, none)
    else if given
    then filled
    else done (hmt_free_content pt, none)
