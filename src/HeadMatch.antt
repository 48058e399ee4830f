-- ===== src/HeadMatch.antt =====
-- libs/head-match-tree: the patterns of a matcher, in new.c and add.c. A pattern is the memory behind
-- its pointer. The tables that `hmt_compile` allocates are functions on their indices; -1 in a table
-- or as the enter point is `none`.
pub mod Compile
pub mod Match
pub mod Index
pub mod Border
pub mod Good
pub mod Order
pub mod Fill
pub mod Node
pub mod Else
pub mod Longest
pub mod Search
pub mod Lookup
pub mod Compiled
pub mod Insert
pub mod Keeps
pub mod Adding
mod Tests
use esq.Base.{
  ℕ, zero, suc, ◌+◌, ◌-◌, ◌*◌, ◌^◌, Bool, true, false, ◌||◌, Option, none, some, ltb, leb, ◌==◌,
  if◌then◌else◌, Mem, strnlen,
}

-- `hmt_item_t`; `malloc_item` is NULL or the copy of the pattern.
pub record Item : Type 0 where
  pub pattern : Mem
  pub userdata : ℕ
  pub malloc_item : ℕ

abbrev pub Table : Type 0
Table = ℕ → Option ℕ

-- `hmt_t`
pub record Hmt : Type 0 where
  pub max : ℕ
  pub cnt : ℕ
  pub enter_point : Option ℕ
  pub higher_jump_table : Table
  pub lower_jump_table : Table
  pub someone_else_matched_table : Table
  pub next_level_enter_point_table : Table
  pub patterns_length : ℕ → ℕ
  pub pattern_len_max : ℕ
  pub pattern_len_max_shift : ℕ
  pub items : ℕ → Item

-- `pt->items[i].pattern[depth]`
abbrev pub byte : Hmt → ℕ → ℕ → ℕ
byte pt i depth = (pt.items i).pattern depth

abbrev pub hmt_item_max : ℕ
hmt_item_max = 111

-- `scale` in `hmt_new2`, and its default.
pub data Scale : Type 0 where
  scale_16 : Scale
  scale_32 : Scale
  scale_64 : Scale
  scale_128 : Scale
  scale_512 : Scale
  scale_default : Scale

abbrev pub shift_of : Scale → ℕ
shift_of scale_16 = 4
shift_of scale_32 = 5
shift_of scale_64 = 6
shift_of scale_128 = 7
shift_of scale_512 = 9
shift_of scale_default = 7

-- `hmt_new2`, where `malloc` gives memory with these contents. The content of the tables, that the C
-- has as NULL, is nothing that is read.
unfoldable pub hmt_new2 : ℕ → Scale → Hmt → Option Hmt
hmt_new2 max scale memory =
    if leb hmt_item_max max
    then none
    else some (record memory {
      max = max;
      cnt = 0;
      enter_point = none;
      pattern_len_max = 2 ^ shift_of scale;
      pattern_len_max_shift = shift_of scale;
    })

unfoldable pub hmt_new : ℕ → Hmt → Option Hmt
unfolding hmt_new2
hmt_new max memory = hmt_new2 max scale_32 memory

-- `hmt_free_content`, as far as it is read.
abbrev pub hmt_free_content : Hmt → Hmt
hmt_free_content pt = record pt { enter_point = none }

-- What `strncmp` finds of the first string.
pub data Compared : Type 0 where
  lower : Compared
  same : Compared
  higher : Compared

-- `strncmp` on at most `n` bytes, which it reads without sign, by its documented behaviour.
unfoldable pub strncmp : Mem → Mem → ℕ → Compared
strncmp a b zero = same
strncmp a b (suc n) =
    let rest = strncmp (λ i. a (i + 1)) (λ i. b (i + 1)) n in
    if ltb (b 0) (a 0)
    then higher
    else if ltb (a 0) (b 0)
    then lower
    else if a 0 == 0
    then same
    else rest

-- The results of the functions that add a pattern.
pub data Added : Type 0 where
  pattern_added : Added
  too_many_patterns : Added
  pattern_too_long : Added
  pattern_exist : Added
  no_memory : Added

-- The first loop of `__hmt_add`, `n` items from `i` on: where the pattern is to stand; `none` where it
-- is there already.
unfoldable pub place_loop : Hmt → Mem → ℕ → ℕ → Option ℕ
unfolding strncmp
place_loop pt pattern zero i = some i
place_loop pt pattern (suc n) i =
    let rest = place_loop pt pattern n (i + 1) in
    elim (strncmp pattern (pt.items i).pattern pt.pattern_len_max) [
      | higher ↦ some i
      | lower ↦ rest
      | same ↦ none
    ]

-- The second loop, with the write behind it: the items from `i` on move up by one.
unfoldable pub inserted : (ℕ → Item) → ℕ → Item → ℕ → Item
inserted items i k j = if ltb j i then items j else if j == i then k else items (j - 1)

-- `__hmt_add`
unfoldable pub add_item : Hmt → Item → Hmt × Added
unfolding place_loop inserted
add_item pt k =
    if leb pt.max pt.cnt then (pt, too_many_patterns) else elim (place_loop pt k.pattern pt.cnt 0) [
      | none ↦ (pt, pattern_exist)
      | some i ↦ (record pt { items = inserted pt.items i k; cnt = pt.cnt + 1 }, pattern_added)
    ]

unfoldable pub hmt_add : Hmt → Mem → ℕ → Hmt × Added
unfolding strnlen add_item
hmt_add pt pattern userdata =
    let l = strnlen pattern pt.pattern_len_max in
    if leb pt.pattern_len_max l || l == 0
    then (pt, pattern_too_long)
    else add_item pt (record { pattern = pattern; userdata = userdata; malloc_item = 0 })

-- `local` is what `malloc` returns. The copy of the pattern has the same bytes up to its end.
unfoldable pub hmt_add2 : Hmt → Mem → ℕ → ℕ → Hmt × Added
unfolding strnlen add_item
hmt_add2 pt pattern userdata local =
    let l = strnlen pattern pt.pattern_len_max in
    if leb pt.pattern_len_max l || l == 0
    then (pt, pattern_too_long)
    else if local == 0
    then (pt, no_memory)
    else add_item pt (record { pattern = pattern; userdata = userdata; malloc_item = local })
