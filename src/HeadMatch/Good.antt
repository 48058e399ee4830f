-- ===== src/HeadMatch/Good.antt =====
-- What `hmt_fill_jump_tables` leaves in the tables: a tree of jumps over the items of a part.
use esq.Base.{
  ℕ, zero, suc, ◌+◌, ◌-◌, ◌^◌, ◌<◌, ◌≤◌, ◌≡◌, ◌≢◌, ◌⊎◌, ◌∙◌, inl, inr, Option, none, some, arith,
}
use esq.HeadMatch.{Hmt, Table, byte}
use esq.HeadMatch.Compile.{index}

-- The three tables of jumps, and the enter point.
pub record Jumps : Type 0 where
  pub enter : Option ℕ
  pub up : Table
  pub down : Table
  pub next : Table

module _ (pt : Hmt) where
  -- The matcher with these tables.
  abbrev pub with_jumps : Jumps → Hmt
  with_jumps j = record pt {
    enter_point = j.enter;
    higher_jump_table = j.up;
    lower_jump_table = j.down;
    next_level_enter_point_table = j.next;
  }

  -- The entries at `b` and `d` are the same.
  abbrev pub SameAt : Jumps → Jumps → ℕ → ℕ → Type 0
  SameAt j k b d =
      (k.up (index pt b d) ≡ j.up (index pt b d))
      × (k.down (index pt b d) ≡ j.down (index pt b d))
      × (k.next (index pt b d) ≡ j.next (index pt b d))

  -- From `r`, the tables lead to all items from `s` to `e`, by their bytes from `depth` on: `r` is the
  -- only item, which ends here, or it is the first of those with one byte, and there are jumps to
  -- those with higher and lower bytes, where there are any, and to the next byte.
  unfoldable pub Good : ℕ → Jumps → ℕ → ℕ → ℕ → ℕ → Type 0
  Good zero j depth s e r = ⊥
  Good (suc f) j depth s e r =
      (depth < 2 ^ pt.pattern_len_max_shift)
      × ((byte pt s depth ≡ 0) × (r ≡ s)
          ⊎ ((be : ℕ) × (s ≤ r)
              × (r ≤ be)
              × (be ≤ e)
              × (byte pt r depth ≢ 0)
              × ((i : ℕ) → r ≤ i → i ≤ be → byte pt i depth ≡ byte pt r depth)
              × ((r ≡ s) × (j.up (index pt r depth) ≡ none)
                  ⊎ ((s < r)
                      × (byte pt (r - 1) depth ≢ byte pt r depth)
                      × ((h : ℕ) × (j.up (index pt r depth) ≡ some h)
                          × Good f j depth s (r - 1) h)))
              × ((be ≡ e) × (j.down (index pt r depth) ≡ none)
                  ⊎ ((be < e)
                      × (byte pt (be + 1) depth ≢ byte pt r depth)
                      × ((h : ℕ) × (j.down (index pt r depth) ≡ some h)
                          × Good f j depth (be + 1) e h)))
              × ((n : ℕ) × (j.next (index pt r depth) ≡ some n) × Good f j (depth + 1) r be n)))

  -- Only the entries of the items of the part count, from `depth` on.
  pub Good-same :
      (f : ℕ) (j k : Jumps) (depth s e r : ℕ)
      → ((b d : ℕ) → d < 2 ^ pt.pattern_len_max_shift → s ≤ b → b ≤ e → depth ≤ d → SameAt j k b d)
      → Good f j depth s e r
      → Good f k depth s e r
  unfolding Good
  Good-same zero j k depth s e r same g = absurd g
  Good-same (suc f) j k depth s e r same (short, inl leaf) = (short, inl leaf)
  Good-same (suc f) j k depth s e r same (short, inr (be, a, b, c, nz, all, up, down, next)) =
      let (su, sd, sn) = same r depth short a (omega (arith, b, c)) (omega arith) in
      (
        short,
        inr (
          be,
          a,
          b,
          c,
          nz,
          all,
          (elim up [
            | inl (at, no_jump) ↦ inl (at, su ∙ no_jump)
            | inr (below, ne, (h, jump, g)) ↦ inr (
              below,
              ne,
              (
                h,
                su ∙ jump,
                Good-same f j k depth s (r - 1) h
                    (λ x d l m n o. same x d l m (omega (arith, n, b, c)) o) g,
              ),
            )
          ]),
          (elim down [
            | inl (at, no_jump) ↦ inl (at, sd ∙ no_jump)
            | inr (below, ne, (h, jump, g)) ↦ inr (
              below,
              ne,
              (
                h,
                sd ∙ jump,
                Good-same f j k depth (be + 1) e h
                    (λ x d l m n o. same x d l (omega (arith, m, a, b)) n o) g,
              ),
            )
          ]),
          (let (n, jump, g) = next in
              (
                n,
                sn ∙ jump,
                Good-same f j k (depth + 1) r be n
                    (λ x d l m p o.
                      same x d l (omega (arith, m, a)) (omega (arith, p, c)) (omega (arith, o)))
                    g,
              )),
        ),
      )
