-- ===== src/HeadMatch/Lookup.antt =====
-- `hmt_match` on what `hmt_compile` makes.
use esq.Base.{
  ℕ, zero, suc, ◌+◌, ◌-◌, ◌<◌, ◌≤◌, ◌≡◌, ◌≢◌, refl, sym, ap, subst, ◌∙◌, inl, inr, true, false,
  Option, some, arith, ltb, leb, ◌==◌, Bool-cases, Mem, done,
}
use esq.HeadMatch.{Hmt, byte}
use esq.HeadMatch.Compile.{index}
use esq.HeadMatch.Match.{signed, match_loop}
use esq.HeadMatch.Good.{Jumps, with_jumps, Good}
use esq.HeadMatch.Order.{IsMatcher, Common-part, mono, depth_le}
use esq.HeadMatch.Else.{entry}
use esq.HeadMatch.Longest.{Longest, stuck_entry}
use esq.HeadMatch.Search.{
  signed_above, signed_below, Reached, narrow, all_short, next_level, leaf_Longest,
}

module _ (pt : Hmt) (ok : IsMatcher pt pt.patterns_length) (j : Jumps)
    (entries : (b d : ℕ)
      → b < pt.cnt
      → d < pt.patterns_length b
      → pt.someone_else_matched_table (index pt b d) ≡ entry pt b d)
    (string : Mem) where
  -- A step at an item that does not end.
  module _ (fuel depth s e r be : ℕ) (at : Reached pt ok j entries string depth s e) (a : s ≤ r)
      (b : r ≤ be) (c : be ≤ e) (nz : byte pt r depth ≢ 0)
      (all : (i : ℕ) → r ≤ i → i ≤ be → byte pt i depth ≡ byte pt r depth) where
    deep : depth < pt.patterns_length r
    deep =
        let inside = at.inside in
        let low =
          depth_le pt pt.patterns_length ok depth r be (Common-part pt depth s e r be a c at.common)
            (omega arith) b in
        elim (Bool-cases (depth == pt.patterns_length r)) [
          | inl e1 ↦
              let same : depth ≡ pt.patterns_length r = ground arith in
              absurd (nz (ap (byte pt r) same ∙ (ok.text r (omega arith)).1))
          | inr e1 ↦ ground arith
        ]

    ascii : (k : ℕ) → s ≤ k → k ≤ e → depth < pt.patterns_length k → byte pt k depth < 128
    ascii k x y h = let inside = at.inside in ((ok.text k (omega arith)).0 depth h).1

    -- Where the search ends.
    stops :
        ((k : ℕ) → s ≤ k → k ≤ e → depth < pt.patterns_length k → byte pt k depth ≢ string depth)
        → Longest pt pt.patterns_length string (pt.someone_else_matched_table (index pt r depth))
    stops differ =
        let inside = at.inside in
        subst (Longest pt pt.patterns_length string) (sym (entries r depth (omega arith) deep)) (
          stuck_entry pt ok string r depth (omega arith) deep
            (λ x h. at.along x h ∙ sym (at.common r x a (omega arith) h).0)
            (all_short pt ok j entries string depth s e at differ))

    order : (i k : ℕ) → s ≤ i → i ≤ k → k ≤ e → byte pt k depth ≤ byte pt i depth
    order i k x y z = mono pt pt.patterns_length ok depth s e at.common at.inside i k x y z

    -- The bytes from `r` on are too low, and those up to `be` too high.
    differ_up :
        ltb (signed (byte pt r depth)) (signed (string depth)) ≡ true
        → (k : ℕ) → r ≤ k
        → k ≤ e
        → byte pt k depth ≢ string depth
    differ_up above k x y =
        signed_above (byte pt k depth) (byte pt r depth) (string depth)
          (ascii r a (omega arith) deep) (order r k a x y) above

    differ_down :
        (string depth == byte pt r depth) ≡ false
        → ltb (signed (byte pt r depth)) (signed (string depth)) ≡ false
        → (k : ℕ) → s ≤ k
        → k ≤ be
        → depth < pt.patterns_length k
        → byte pt k depth ≢ string depth
    differ_down miss not_above k x y h =
        let high : byte pt r depth ≤ byte pt k depth = elim (Bool-cases (leb k r)) [
          | inl low ↦ order k r x (ground arith) (omega arith)
          | inr past ↦ let same = all k (ground arith) y in omega (arith, same)
        ] in
        signed_below (byte pt k depth) (byte pt r depth) (string depth) (ascii k x (omega arith) h)
          high miss not_above

    differ_before :
        byte pt (r - 1) depth ≢ byte pt r depth
        → s < r
        → string depth ≡ byte pt r depth
        → (k : ℕ) → s ≤ k
        → k < r
        → byte pt k depth ≢ string depth
    differ_before ne lt hit k x y z =
        let u = order k (r - 1) x (omega arith) (omega arith) in
        let v = order (r - 1) r (omega arith) (omega arith) (omega arith) in
        ne (omega (arith, z, hit, u, v))

    differ_after :
        byte pt (be + 1) depth ≢ byte pt r depth
        → be < e
        → string depth ≡ byte pt r depth
        → (k : ℕ) → be < k
        → k ≤ e
        → byte pt k depth ≢ string depth
    differ_after ne lt hit k x y z =
        let u = order (be + 1) k (omega arith) (omega arith) y in
        let v = order r (be + 1) a (omega arith) (omega arith) in ne (omega (arith, z, hit, u, v))

  pub match_loop-Longest :
      (f depth s e r : ℕ)
      → Good pt f j depth s e r
      → Reached pt ok j entries string depth s e
      → (res : Option ℕ) × (match_loop f (with_jumps pt j) string r depth ≡ done res)
        × Longest pt pt.patterns_length string res
  unfolding match_loop Good
  match_loop-Longest zero depth s e r g at = absurd g
  match_loop-Longest (suc f) depth s e r (short, inl (end, same)) at =
      let size = ok.size in
      let going : leb pt.pattern_len_max depth ≡ false = ground arith in
      let ended : (byte pt r depth == 0) ≡ true =
        ground (arith, ap (λ k. byte pt k depth) same, end) in
      (
        some r,
        rw (going, ended) refl,
        subst (λ k. Longest pt pt.patterns_length string (some k)) (sym same)
            (leaf_Longest pt ok j entries string depth s e at end),
      )
  match_loop-Longest (suc f) depth s e r
        (short, inr (be, a, b, c, nz, all, up, down, (n, jump_next, good_next))) at =
      let size = ok.size in
      let going : leb pt.pattern_len_max depth ≡ false = ground arith in
      let more : (byte pt r depth == 0) ≡ false = ground arith in
      elim (Bool-cases (string depth == byte pt r depth)) [
        | inl hit ↦
            let same : string depth ≡ byte pt r depth = ground arith in
            let (res, run, longest) = match_loop-Longest f (depth + 1) r be n good_next (
              next_level pt ok j entries string depth r be
                (narrow pt ok j entries string depth s e r be at a b c λ k x y out h. elim out [
                  | inl before ↦ elim up [
                    | inl (first, no_jump) ↦ absurd (omega arith)
                    | inr (below, ne, jumped) ↦
                        differ_before f depth s e r be at a b c nz all ne below same k x before
                  ]
                  | inr after ↦ elim down [
                    | inl (last, no_jump) ↦ absurd (omega arith)
                    | inr (beyond, ne, jumped) ↦
                        differ_after f depth s e r be at a b c nz all ne beyond same k after y
                  ]
                ])
                all nz same) in
            (res, rw (going, more, hit, jump_next) run, longest)
        | inr miss ↦ elim (Bool-cases (ltb (signed (byte pt r depth)) (signed (string depth)))) [
          | inl above ↦ elim up [
            | inl (first, no_jump) ↦ (
              pt.someone_else_matched_table (index pt r depth),
              rw (going, more, miss, above, no_jump) refl,
              stops f depth s e r be at a b c nz all
                  λ k x y h. differ_up f depth s e r be at a b c nz all above k (omega arith) y,
            )
            | inr (below, ne, (h, jump_up, good_up)) ↦
                let (res, run, longest) = match_loop-Longest f depth s (r - 1) h good_up (
                  narrow pt ok j entries string depth s e s (r - 1) at (omega arith) (omega arith)
                    (omega arith)
                    λ k x y out h.
                      differ_up f depth s e r be at a b c nz all above k
                        (elim out [ inl l ↦ omega arith | inr l ↦ omega arith ]) y) in
                (res, rw (going, more, miss, above, jump_up) run, longest)
          ]
          | inr not_above ↦ elim down [
            | inl (last, no_jump) ↦ (
              pt.someone_else_matched_table (index pt r depth),
              rw (going, more, miss, not_above, no_jump) refl,
              stops f depth s e r be at a b c nz all λ k x y h.
                  differ_down f depth s e r be at a b c nz all miss not_above k x (omega arith) h,
            )
            | inr (beyond, ne, (h, jump_down, good_down)) ↦
                let (res, run, longest) = match_loop-Longest f depth (be + 1) e h good_down (
                  narrow pt ok j entries string depth s e (be + 1) e at (omega arith) (omega arith)
                    (omega arith)
                    λ k x y out h.
                      differ_down f depth s e r be at a b c nz all miss not_above k x
                        (elim out [ inl l ↦ omega arith | inr l ↦ omega arith ]) h) in
                (res, rw (going, more, miss, not_above, jump_down) run, longest)
          ]
        ]
      ]
