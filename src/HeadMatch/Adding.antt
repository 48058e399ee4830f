-- ===== src/HeadMatch/Adding.antt =====
-- What `hmt_add` does to a matcher.
use esq.Base.{
  ℕ, ◌+◌, ◌-◌, ◌<◌, ◌≤◌, ◌≡◌, ◌≢◌, ◌⊎◌, refl, sym, ap, inl, inr, true, false, ◌||◌, Option, none,
  some, arith, ltb, leb, ◌==◌, if◌then◌else◌, Bool-cases, Mem, strnlen,
}
use esq.HeadMatch.{
  Item, Hmt, byte, Added, pattern_added, too_many_patterns, pattern_too_long, pattern_exist,
  place_loop, inserted, add_item, hmt_add,
}
use esq.HeadMatch.Order.{IsMatcher}
use esq.HeadMatch.Compiled.{length_of}
use esq.HeadMatch.Keeps.{Place, place_loop-Place, with_item, with_item-IsMatcher}

-- What `hmt_add` does to a matcher: it refuses a pattern that is empty or too long, or one too many, or
-- one that is there, and changes nothing, or the matcher has one item more, with the pattern and the
-- user data, between the items that it had, in their order.
abbrev pub Adds : Hmt → Mem → ℕ → Hmt × Added → Type 0
Adds pt pattern userdata r =
    (((strnlen pattern pt.pattern_len_max ≡ 0)
        ⊎ (pt.pattern_len_max ≤ strnlen pattern pt.pattern_len_max))
      × (r ≡ (pt, pattern_too_long)))
    ⊎ ((pt.max ≤ pt.cnt) × (r ≡ (pt, too_many_patterns)))
    ⊎ (((i : ℕ) × (i < pt.cnt)
          × ((x : ℕ)
              → x < pt.pattern_len_max
              → ((y : ℕ) → y < x → pattern y ≢ 0)
              → pattern x ≡ byte pt i x))
        × (r ≡ (pt, pattern_exist)))
    ⊎ ((i : ℕ) × (pt' : Hmt) × (i ≤ pt.cnt)
        × (r ≡ (pt', pattern_added))
        × (pt'.cnt ≡ pt.cnt + 1)
        × IsMatcher pt' (length_of pt')
        × (((pt'.items i).pattern ≡ pattern) × ((pt'.items i).userdata ≡ userdata))
        × ((q : ℕ) → q < pt.cnt → pt.items q ≡ pt'.items (if ltb q i then q else q + 1)))

-- A matcher whose patterns are different texts of ASCII bytes, shorter than its bound, in the order of
-- `strncmp` from the highest on, gets one pattern more, of ASCII bytes. If it is refused, nothing
-- changes: it is empty or not shorter than the bound, or the matcher is full, or an item has the same
-- bytes up to its end. Otherwise the matcher has the pattern and the user data in one item more, all
-- others keep their order, and it is such a matcher again.
pub hmt_add-Adds :
    (pt : Hmt) (pattern : Mem) (userdata : ℕ)
    → IsMatcher pt (length_of pt)
    → ((x : ℕ) → x < strnlen pattern pt.pattern_len_max → pattern x < 128)
    → Adds pt pattern userdata (hmt_add pt pattern userdata)
unfolding hmt_add add_item inserted
hmt_add-Adds pt pattern userdata ok ascii =
    let l = strnlen pattern pt.pattern_len_max in
    elim (Bool-cases (leb pt.pattern_len_max l || l == 0)) [
      | inl bad ↦ inl (
        elim (Bool-cases (l == 0)) [ inl z ↦ inl (ground arith) | inr z ↦ inr (ground arith) ],
        rw bad refl,
      )
      | inr good ↦ elim (Bool-cases (leb pt.max pt.cnt)) [
        | inl full ↦ inr (inl (ground arith, rw (good, full) refl))
        | inr room ↦
            by_place good room (place_loop pt pattern pt.cnt 0) refl
              (place_loop-Place pt ok pattern pt.cnt 0 (omega arith))
      ]
    ]
  where
    added_item : Item
    added_item = record { pattern = pattern; userdata = userdata; malloc_item = 0 }

    own_item :
        (i : ℕ)
        → ((inserted pt.items i added_item i).pattern ≡ pattern)
          × ((inserted pt.items i added_item i).userdata ≡ userdata)
    own_item i =
        let not_below : ltb i i ≡ false = ground arith in
        let here : (i == i) ≡ true = ground arith in rw (not_below, here) (refl, refl)

    other_item :
        (i q : ℕ) → pt.items q ≡ inserted pt.items i added_item (if ltb q i then q else q + 1)
    other_item i q = elim (Bool-cases (ltb q i)) [
      | inl low ↦ rw (low, low) refl
      | inr high ↦
          let past : ltb (q + 1) i ≡ false = ground arith in
          let other : (q + 1 == i) ≡ false = ground arith in
          let back : (q + 1) - 1 ≡ q = omega arith in
          rw (high, past, other) (ap pt.items (sym back))
    ]

    by_place :
        (leb pt.pattern_len_max (strnlen pattern pt.pattern_len_max)
            || strnlen pattern pt.pattern_len_max == 0)
          ≡ false
        → leb pt.max pt.cnt ≡ false
        → (o : Option ℕ) → place_loop pt pattern pt.cnt 0 ≡ o
        → Place pt ok pattern 0 o
        → Adds pt pattern userdata (hmt_add pt pattern userdata)
    by_place good room none e p = inr (inr (inl (p, rw (good, room, e, add_item) refl)))
    by_place good room (some i) e p = inr (
        inr (
          inr (
            i,
            with_item pt ok pattern added_item refl (ground arith) ascii i,
            p.1,
            rw (good, room, e, add_item) refl,
            refl,
            with_item-IsMatcher pt ok pattern added_item refl (ground arith) ascii i p,
            own_item i,
            λ q h. other_item i q,
          )))
