-- ===== src/HeadMatch/Fill.antt =====
-- `hmt_fill_jump_tables` makes the tree of jumps.
use esq.Base.{
  ℕ, ◌+◌, ◌-◌, ◌^◌, ◌<◌, ◌≡◌, ◌≢◌, ◌⊎◌, refl, ◌∙◌, inl, inr, Bool, true, false, Option, none, some,
  arith, ◌==◌, Run, done, ◌>>=◌,
}
use esq.HeadMatch.{Hmt}
use esq.HeadMatch.Compile.{index, put, part, put_jumps, put_next, hmt_fill_jump_tables}
use esq.HeadMatch.Index.{index_ne, put_self, put_other}
use esq.HeadMatch.Border.{IsCenter}
use esq.HeadMatch.Good.{Jumps, with_jumps, SameAt, Good}

module _ (pt : Hmt) where
  -- Entries that a part from `s` to `e` does not have from `depth` on.
  abbrev pub Outside : ℕ → ℕ → ℕ → ℕ → ℕ → Type 0
  Outside depth s e b d = (b < s) ⊎ (e < b) ⊎ (d < depth)

  abbrev pub Keeps : Jumps → Jumps → ℕ → ℕ → ℕ → Type 0
  Keeps j k depth s e =
      (b d : ℕ) → d < 2 ^ pt.pattern_len_max_shift → Outside depth s e b d → SameAt pt j k b d

  -- What the run on a part must do.
  abbrev pub Fills : ℕ → Jumps → ℕ → ℕ → ℕ → Type 0
  Fills fuel j depth s e =
      (k : Jumps) × (r : ℕ) × (hmt_fill_jump_tables fuel (with_jumps pt j) depth s e
        ≡ done (with_jumps pt k, r))
      × Good pt fuel k depth s e r
      × Keeps j k depth s e

  pub same_trans :
      (j k m : Jumps) (b d : ℕ) → SameAt pt j k b d → SameAt pt k m b d → SameAt pt j m b d
  same_trans j k m b d (a1, a2, a3) (b1, b2, b3) = (b1 ∙ a1, b2 ∙ a2, b3 ∙ a3)

  pub part_lem :
      (fuel : ℕ) (t : Bool) (j : Jumps) (depth a b : ℕ)
      → (t ≡ false → Fills fuel j depth a b)
      → (k : Jumps) × (o : Option ℕ) × (part t
            (with_jumps pt j)
            (hmt_fill_jump_tables fuel (with_jumps pt j) depth a b)
          ≡ done (with_jumps pt k, o))
        × ((t ≡ true) × (o ≡ none)
            ⊎ ((t ≡ false) × ((h : ℕ) × (o ≡ some h) × Good pt fuel k depth a b h)))
        × Keeps j k depth a b
  part_lem fuel true j depth a b fills =
      (j, none, refl, inl (refl, refl), λ x d l o. (refl, refl, refl))
  part_lem fuel false j depth a b fills =
      let (k, r, run, good, keeps) = fills refl in
      (k, some r, rw run refl, inr (refl, (r, refl, good)), keeps)

  module _ (fuel : ℕ) (j : Jumps) (depth s e bs be : ℕ)
      (short : depth < 2 ^ pt.pattern_len_max_shift) (center : IsCenter pt depth s e bs be) where
    -- The part after the search for the borders.
    unfoldable pub node : Run (Hmt × ℕ)
    node =
        part (bs == s) (with_jumps pt j)
          (hmt_fill_jump_tables fuel (with_jumps pt j) depth s (bs - 1))
        >>= λ a. part (be == e) a.0 (hmt_fill_jump_tables fuel a.0 depth (be + 1) e) >>= λ b.
            hmt_fill_jump_tables fuel (put_jumps b.0 bs depth a.1 b.1) (depth + 1) bs be >>= λ n.
            done (put_next n.0 bs depth n.1, bs)

    -- The writes at the item `bs`.
    unfoldable pub with_ends : Jumps → Option ℕ → Option ℕ → Jumps
    with_ends k above below = record {
      enter = k.enter;
      up = put k.up (index pt bs depth) above;
      down = put k.down (index pt bs depth) below;
      next = k.next;
    }

    unfoldable pub with_next : Jumps → ℕ → Jumps
    with_next k n = record {
      enter = k.enter;
      up = k.up;
      down = k.down;
      next = put k.next (index pt bs depth) (some n);
    }

    ends_same :
        (k : Jumps) (above below : Option ℕ) (b d : ℕ)
        → index pt b d ≢ index pt bs depth
        → SameAt pt k (with_ends k above below) b d
    unfolding with_ends
    ends_same k above below b d ne =
        (put_other k.up _ _ above ne, put_other k.down _ _ below ne, refl)

    pub next_same :
        (k : Jumps) (n b d : ℕ) → index pt b d ≢ index pt bs depth → SameAt pt k (with_next k n) b d
    unfolding with_next
    next_same k n b d ne = (refl, refl, put_other k.next _ _ (some n) ne)

    -- From the jumps of the higher and lower parts on.
    module _ (k m : Jumps) (above below : Option ℕ) (n : ℕ)
        (keeps : Keeps (with_ends k above below) m (depth + 1) bs be) where
      pub outside_same : Keeps k (with_next m n) depth bs be
      outside_same b d l out =
          let other : index pt b d ≢ index pt bs depth =
            index_ne pt b bs d depth l short (apart out) in
          same_trans k (with_ends k above below) (with_next m n) b d
            (ends_same k above below b d other)
            (same_trans (with_ends k above below) m (with_next m n) b d (keeps b d l (deeper out))
              (next_same m n b d other))
        where
          apart : Outside depth bs be b d → (b ≢ bs) ⊎ (d ≢ depth)
          apart (inl h) = inl (omega arith)
          apart (inr (inl h)) = let hold = center.holds in inl (omega arith)
          apart (inr (inr h)) = inr (omega arith)

          deeper : Outside depth bs be b d → Outside (depth + 1) bs be b d
          deeper (inl h) = inl h
          deeper (inr (inl h)) = inr (inl h)
          deeper (inr (inr h)) = inr (inr (omega arith))

      pub up_at : (with_next m n).up (index pt bs depth) ≡ above
      unfolding with_next with_ends
      up_at =
          (keeps bs depth short (inr (inr (omega arith)))).0
          ∙ put_self k.up (index pt bs depth) above

      pub down_at : (with_next m n).down (index pt bs depth) ≡ below
      unfolding with_next with_ends
      down_at =
          (keeps bs depth short (inr (inr (omega arith)))).1
          ∙ put_self k.down (index pt bs depth) below

      pub next_at : (with_next m n).next (index pt bs depth) ≡ some n
      unfolding with_next
      next_at = put_self m.next (index pt bs depth) (some n)
