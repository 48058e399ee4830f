-- ===== src/HeadMatch/Node.antt =====
-- The whole of `hmt_fill_jump_tables`.
use esq.Base.{
  ℕ, zero, suc, ◌+◌, ◌-◌, ◌^◌, ◌<◌, ◌≤◌, ◌≡◌, ◌≢◌, ◌⊎◌, refl, sym, ap, ◌∙◌, inl, inr, false, arith,
  leb, ltb, ◌==◌, Bool-cases, done,
}
use esq.HeadMatch.{Hmt, byte}
use esq.HeadMatch.Compile.{find_start, find_end, hmt_fill_jump_tables}
use esq.HeadMatch.Index.{index_ne}
use esq.HeadMatch.Border.{IsCenter, find_border-IsCenter}
use esq.HeadMatch.Good.{Jumps, with_jumps, Good, Good-same}
use esq.HeadMatch.Order.{IsMatcher, Common, Common-part, Common-next, zero_last, depth_le}
use esq.HeadMatch.Fill.{
  Outside, Keeps, Fills, part_lem, same_trans, node, with_ends, with_next, next_same, outside_same,
  up_at, down_at, next_at,
}

module _ (pt : Hmt) (fuel : ℕ) (j : Jumps) (depth s e bs be : ℕ)
    (short : depth < 2 ^ pt.pattern_len_max_shift) (center : IsCenter pt depth s e bs be)
    (nz : byte pt bs depth ≢ 0) where
  node-Good :
      (s < bs → Fills pt fuel j depth s (bs - 1))
      → ((k : Jumps) → be < e → Fills pt fuel k depth (be + 1) e)
      → ((k : Jumps) → Fills pt fuel k (depth + 1) bs be)
      → (k : Jumps) × (node pt fuel j depth s e bs be short center ≡ done (with_jumps pt k, bs))
        × Good pt (suc fuel) k depth s e bs
        × Keeps pt j k depth s e
  unfolding node with_ends with_next Good
  node-Good fills_up fills_down fills_next =
      let (k1, o1, run1, got1, keeps1) =
        part_lem pt fuel (bs == s) j depth s (bs - 1)
          λ ne. fills_up (let a = center.start_le in ground arith) in
      let (k2, o2, run2, got2, keeps2) =
        part_lem pt fuel (be == e) k1 depth (be + 1) e
          λ ne. fills_down k1 (let a = center.end_le in ground arith) in
      let (k4, n, run4, good4, keeps4) =
        fills_next (with_ends pt fuel j depth s e bs be short center k2 o1 o2) in
      let k5 = with_next pt fuel j depth s e bs be short center k4 n in
      let later : Keeps pt k2 k5 depth bs be =
        outside_same pt fuel j depth s e bs be short center k2 k4 o1 o2 n keeps4 in
      (
        k5,
        rw (run1, run2, run4) refl,
        (
          short,
          inr (
            be,
            center.start_le,
            center.holds,
            center.end_le,
            nz,
            center.all,
            (elim got1 [
              | inl (t, no_part) ↦ inl (
                ground arith,
                up_at pt fuel j depth s e bs be short center k2 k4 o1 o2 n keeps4 ∙ no_part,
              )
              | inr (t, (h, some_part, g)) ↦
                  let (below, ne) = strict_before t center.before in
                  inr (
                    below,
                    ne,
                    (
                      h,
                      up_at pt fuel j depth s e bs be short center k2 k4 o1 o2 n keeps4 ∙ some_part,
                      Good-same pt fuel k1 k5 depth s (bs - 1) h
                          (λ b d l x y z.
                            same_trans pt k1 k2 k5 b d
                              (keeps2 b d l (inl (let c = center.holds in omega arith)))
                              (later b d l (inl (omega arith))))
                          g,
                    ),
                  )
            ]),
            (elim got2 [
              | inl (t, no_part) ↦ inl (
                ground arith,
                down_at pt fuel j depth s e bs be short center k2 k4 o1 o2 n keeps4 ∙ no_part,
              )
              | inr (t, (h, some_part, g)) ↦
                  let (above, ne) = strict_after t center.after in
                  inr (
                    above,
                    ne,
                    (
                      h,
                      down_at pt fuel j depth s e bs be short center k2 k4 o1 o2 n keeps4
                          ∙ some_part,
                      Good-same pt fuel k2 k5 depth (be + 1) e h
                          (λ b d l x y z. later b d l (inr (inl (omega arith)))) g,
                    ),
                  )
            ]),
            (
              n,
              next_at pt fuel j depth s e bs be short center k2 k4 o1 o2 n keeps4,
              Good-same pt fuel k4 k5 (depth + 1) bs be n
                  (λ b d l x y z.
                    next_same pt fuel j depth s e bs be short center k4 n b d
                      (index_ne pt b bs d depth l short (inr (omega arith))))
                  good4,
            ),
          ),
        ),
        λ b d l out.
            same_trans pt j k1 k5 b d (keeps1 b d l (out_up out)) (
              same_trans pt k1 k2 k5 b d (keeps2 b d l (out_down out))
                (later b d l (out_node out))),
      )
    where
      strict_before :
          (bs == s) ≡ false
          → (bs ≡ s) ⊎ ((s < bs) × (byte pt (bs - 1) depth ≢ byte pt bs depth))
          → (s < bs) × (byte pt (bs - 1) depth ≢ byte pt bs depth)
      strict_before t (inl same) = absurd (ground arith)
      strict_before t (inr strict) = strict

      strict_after :
          (be == e) ≡ false
          → (be ≡ e) ⊎ ((be < e) × (byte pt (be + 1) depth ≢ byte pt bs depth))
          → (be < e) × (byte pt (be + 1) depth ≢ byte pt bs depth)
      strict_after t (inl same) = absurd (ground arith)
      strict_after t (inr strict) = strict

      out_up : {b d : ℕ} → Outside pt depth s e b d → Outside pt depth s (bs - 1) b d
      out_up (inl h) = inl h
      out_up (inr (inl h)) =
          let a = center.holds in let c = center.end_le in inr (inl (omega arith))
      out_up (inr (inr h)) = inr (inr h)

      out_down : {b d : ℕ} → Outside pt depth s e b d → Outside pt depth (be + 1) e b d
      out_down (inl h) = let a = center.holds in let c = center.start_le in inl (omega arith)
      out_down (inr h) = inr h

      out_node : {b d : ℕ} → Outside pt depth s e b d → Outside pt depth bs be b d
      out_node (inl h) = let c = center.start_le in inl (omega arith)
      out_node (inr (inl h)) = let c = center.end_le in inr (inl (omega arith))
      out_node (inr (inr h)) = inr (inr h)

module _ (pt : Hmt) (len : ℕ → ℕ) (ok : IsMatcher pt len) where
  with_jumps-IsCenter :
      (j : Jumps) (depth s e : ℕ)
      → s ≤ e
      → IsCenter pt depth s e
          (find_start (with_jumps pt j) depth s e)
          (find_end (with_jumps pt j) depth s e)
  with_jumps-IsCenter j depth s e h =
      let c = find_border-IsCenter (with_jumps pt j) depth s e h in
      record {
        start_le = c.start_le;
        end_le = c.end_le;
        holds = c.holds;
        middle = c.middle;
        middle_from = c.middle_from;
        middle_to = c.middle_to;
        middle_end = c.middle_end;
        all = c.all;
        before = c.before;
        after = c.after;
      }

  -- The item in the middle does not end, if the first does not.
  center_not_zero :
      (depth s e bs be : ℕ)
      → IsCenter pt depth s e bs be
      → Common pt depth s e
      → e < pt.cnt
      → byte pt s depth ≢ 0
      → byte pt bs depth ≢ 0
  center_not_zero depth s e bs be center c inside nz = elim (Bool-cases (ltb bs e)) [
    | inl low ↦ zero_last pt len ok depth s e c inside bs center.start_le (ground arith)
    | inr high ↦
        let a1 = center.middle_from in
        let a2 = center.middle_to in
        let a3 = center.middle_end in
        let a4 = center.end_le in
        let a5 = center.start_le in
        let last : bs ≡ s = ground arith in λ z. nz (ap (λ k. byte pt k depth) (sym last) ∙ z)
  ]

  pub fill-Fills :
      (fuel : ℕ) (j : Jumps) (depth s e : ℕ)
      → s ≤ e
      → e < pt.cnt
      → Common pt depth s e
      → 2 ^ pt.pattern_len_max_shift + e < fuel + depth + s
      → Fills pt fuel j depth s e
  unfolding hmt_fill_jump_tables node Good
  fill-Fills zero j depth s e h inside c f =
      let deep = depth_le pt len ok depth s e c inside h in
      let short = ok.short s (omega arith) in let size = ok.size in absurd (omega arith)
  fill-Fills (suc fuel) j depth s e h inside c f =
      let deep = depth_le pt len ok depth s e c inside h in
      let below = ok.short s (omega arith) in
      let size = ok.size in
      let short : depth < 2 ^ pt.pattern_len_max_shift = omega arith in
      let within_max : leb pt.pattern_len_max depth ≡ false = ground (arith, deep, below) in
      elim (Bool-cases (byte pt s depth == 0)) [
        | inl end ↦ (
          j,
          s,
          rw (within_max, end) refl,
          (short, inl (ground arith, refl)),
          λ b d l o. (refl, refl, refl),
        )
        | inr more ↦
            let bs = find_start (with_jumps pt j) depth s e in
            let be = find_end (with_jumps pt j) depth s e in
            let center = with_jumps-IsCenter j depth s e h in
            let nz = center_not_zero depth s e bs be center c inside (ground arith) in
            let a1 = center.start_le in
            let a2 = center.end_le in
            let a3 = center.holds in
            let own : (i : ℕ) → bs ≤ i → i ≤ be → byte pt i depth ≡ byte pt bs depth = center.all in
            let (k, run, good, keeps) =
              node-Good pt fuel j depth s e bs be short center nz
                (λ lt.
                  fill-Fills fuel j depth s (bs - 1) (omega arith) (omega arith)
                    (Common-part pt depth s e s (bs - 1) (omega arith) (omega arith) c)
                    (omega arith))
                (λ k lt.
                  fill-Fills fuel k depth (be + 1) e (omega arith) inside
                    (Common-part pt depth s e (be + 1) e (omega arith) (omega arith) c)
                    (omega arith))
                (λ k.
                  fill-Fills fuel k (depth + 1) bs be a3 (omega arith)
                    (Common-next pt depth bs be (Common-part pt depth s e bs be a1 a2 c) own nz)
                    (omega arith)) in
            (k, bs, rw (within_max, more) run, good, keeps)
      ]
