-- ===== src/HeadMatch/Compiled.antt =====
-- `hmt_compile` and `hmt_match` together.
use esq.Base.{
  ℕ, zero, suc, ◌+◌, ◌-◌, ◌<◌, ◌≤◌, ◌≡◌, refl, sym, ◌∙◌, inl, inr, true, false, Option, none, some,
  arith, ◌==◌, Mem, strnlen, done,
}
use esq.HeadMatch.{Hmt, hmt_free_content}
use esq.HeadMatch.Compile.{
  index, else_loop, hmt_compile, hmt_fill_patterns_length_table,
  hmt_fill_someone_else_matched_table,
}
use esq.HeadMatch.Match.{result, hmt_match}
use esq.HeadMatch.Good.{Jumps, with_jumps, Good-same}
use esq.HeadMatch.Order.{IsMatcher}
use esq.HeadMatch.Node.{fill-Fills}
use esq.HeadMatch.Else.{entry, rows_entry}
use esq.HeadMatch.Longest.{Longest}
use esq.HeadMatch.Lookup.{match_loop-Longest}

-- The length of each pattern.
abbrev pub length_of : Hmt → ℕ → ℕ
length_of pt i = strnlen (pt.items i).pattern pt.pattern_len_max

-- What is returned for an item.
abbrev pub found : Hmt → Option ℕ → Option (ℕ × ℕ)
found pt none = none
found pt (some k) = some ((pt.items k).userdata, length_of pt k)

module _ (pt : Hmt) (ok : IsMatcher pt (length_of pt)) where
  abbrev measured : Hmt
  measured = hmt_fill_patterns_length_table (hmt_free_content pt)

  abbrev prepared : Hmt
  prepared = hmt_fill_someone_else_matched_table measured

  prepared-IsMatcher : IsMatcher prepared prepared.patterns_length
  prepared-IsMatcher = record {
    size = ok.size;
    text = ok.text;
    short = ok.short;
    sorted = ok.sorted;
  }

  else_loop_same : (b d n k : ℕ) → else_loop prepared b d n k ≡ else_loop measured b d n k
  unfolding else_loop
  else_loop_same b d zero k = refl
  else_loop_same b d (suc n) k = rw (else_loop_same b d n (k + 1)) refl

  prepared_entries :
      (b d : ℕ)
      → b < pt.cnt
      → d < length_of pt b
      → prepared.someone_else_matched_table (index prepared b d) ≡ entry prepared b d
  prepared_entries b d h f =
      rows_entry measured pt.cnt pt.someone_else_matched_table b d
        (λ i x. let low = ok.short i x in let size = ok.size in omega arith) h f
      ∙ sym (else_loop_same b d (pt.cnt - (b + 1)) (b + 1))

  -- The matcher has items, in the order of `strncmp` from the highest on, all of them different
  -- texts of ASCII bytes that are shorter than the bound, which is a power of two, there is memory
  -- for the tables, and the fuel is at least the bound and the number of items together. Then
  -- `hmt_compile` succeeds, and on every string `hmt_match` ends and returns the user data and the
  -- length of the longest pattern that is a prefix of the string, or NULL if no pattern is one.
  pub hmt_compile-Longest :
      (fuel : ℕ)
      → 0 < pt.cnt
      → pt.pattern_len_max + pt.cnt ≤ fuel
      → (compiled : Hmt) × (hmt_compile fuel true pt ≡ done (compiled, some 0))
        × ((string : Mem)
            → (res : Option ℕ) × (hmt_match fuel compiled string ≡ done (found pt res))
              × Longest pt (length_of pt) string res)
  unfolding hmt_compile hmt_match
  hmt_compile-Longest fuel nonempty enough =
      let size = ok.size in
      let start : Jumps = record {
        enter = none;
        up = pt.higher_jump_table;
        down = pt.lower_jump_table;
        next = pt.next_level_enter_point_table;
      } in
      let (k, r, run, good, keeps) =
        fill-Fills prepared prepared.patterns_length prepared-IsMatcher fuel start 0 0 (pt.cnt - 1)
          (omega arith) (omega arith) (λ i x a b d. absurd (omega arith)) (omega arith) in
      let entered : Jumps = record k { enter = some r } in
      let good_entered =
        Good-same prepared fuel k entered 0 0 (pt.cnt - 1) r (λ b d l x y z. (refl, refl, refl))
          good in
      let some_items : (pt.cnt == 0) ≡ false = ground arith in
      (
        with_jumps prepared entered,
        rw (some_items, run) refl,
        λ string.
            let (res, matched, longest) =
              match_loop-Longest prepared prepared-IsMatcher entered prepared_entries string fuel 0
                0 (pt.cnt - 1) r good_entered
                (record {
                  order = omega arith;
                  inside = omega arith;
                  common = λ i x a b d. absurd (omega arith);
                  along = λ x h. absurd (omega arith);
                  outside = λ i h p out. elim out [
                    | inl l ↦ absurd (omega arith)
                    | inr l ↦ absurd (omega arith)
                  ];
                }) in
            (res, rw matched (found_same entered res), longest),
      )
    where
      found_same :
          (k : Jumps) (res : Option ℕ)
          → done (result (with_jumps prepared k) res) ≡ done (found pt res)
      found_same k none = refl
      found_same k (some n) = refl
