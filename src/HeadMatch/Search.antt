-- ===== src/HeadMatch/Search.antt =====
-- The search through the tree of jumps.
use esq.Base.{
  ℕ, ◌+◌, ◌<◌, ◌≤◌, ◌≡◌, ◌≢◌, ◌⊎◌, sym, ap, ◌∙◌, inl, inr, true, false, some, arith, ltb, ◌==◌,
  Bool-cases, Mem,
}
use esq.HeadMatch.{Hmt, byte}
use esq.HeadMatch.Compile.{index}
use esq.HeadMatch.Match.{signed}
use esq.HeadMatch.Good.{Jumps}
use esq.HeadMatch.Order.{IsMatcher, Common, Common-part, Common-next, zero_last, depth_le}
use esq.HeadMatch.Else.{entry}
use esq.HeadMatch.Longest.{Prefix, Longest}

-- The order of ASCII bytes is that of `char`, and a byte that is not ASCII is below them.
pub signed_above : (b pc c : ℕ) → pc < 128 → b ≤ pc → (ltb (signed pc) (signed c)) ≡ true → b ≢ c
signed_above b pc c h k a e = ground arith

pub signed_below :
    (b pc c : ℕ)
    → b < 128
    → pc ≤ b
    → (c == pc) ≡ false
    → (ltb (signed pc) (signed c)) ≡ false
    → b ≢ c
signed_below b pc c h k ne a e = ground arith

module _ (pt : Hmt) (ok : IsMatcher pt pt.patterns_length) (j : Jumps)
    (entries : (b d : ℕ)
      → b < pt.cnt
      → d < pt.patterns_length b
      → pt.someone_else_matched_table (index pt b d) ≡ entry pt b d)
    (string : Mem) where
  abbrev len : ℕ → ℕ
  len = pt.patterns_length

  -- The string has the bytes of the part before `depth`, and no pattern outside is a longer prefix.
  pub record Reached (depth s e : ℕ) : Type 0 where
    pub order : s ≤ e
    pub inside : e < pt.cnt
    pub common : Common pt depth s e
    pub along : (x : ℕ) → x < depth → string x ≡ byte pt s x
    pub outside : (k : ℕ) → k < pt.cnt → Prefix pt len string k → (k < s) ⊎ (e < k) → len k ≤ depth

  -- A pattern that is a prefix and goes on has the next byte of the string.
  longer :
      (depth k : ℕ)
      → Prefix pt len string k
      → (len k ≤ depth) ⊎ ((depth < len k) × (byte pt k depth ≡ string depth))
  longer depth k p = elim (Bool-cases (ltb depth (len k))) [
    | inl more ↦ let below : depth < len k = ground arith in inr (below, sym (p depth below))
    | inr no_more ↦ inl (ground arith)
  ]

  -- The part is left for a smaller one, where the items that are left out have another byte.
  pub narrow :
      (depth s e t f : ℕ)
      → Reached depth s e
      → s ≤ t
      → t ≤ f
      → f ≤ e
      → ((k : ℕ)
          → s ≤ k
          → k ≤ e
          → (k < t) ⊎ (f < k)
          → depth < len k
          → byte pt k depth ≢ string depth)
      → Reached depth t f
  narrow depth s e t f at a b c differ = record {
    order = b;
    inside = (let i = at.inside in omega arith);
    common = Common-part pt depth s e t f a c at.common;
    along = λ x h. at.along x h ∙ sym (at.common t x a (omega arith) h).0;
    outside = λ k h p out. elim (longer depth k p) [
      | inl low ↦ low
      | inr (below, same) ↦ elim (Bool-cases (ltb k s)) [
        | inl e1 ↦ at.outside k h p (inl (ground arith))
        | inr e1 ↦ elim (Bool-cases (ltb e k)) [
          | inl e2 ↦ at.outside k h p (inr (ground arith))
          | inr e2 ↦ absurd (differ k (ground arith) (ground arith) out below same)
        ]
      ]
    ];
  }

  -- No pattern is a longer prefix, if no item of the part has the next byte.
  pub all_short :
      (depth s e : ℕ)
      → Reached depth s e
      → ((k : ℕ) → s ≤ k → k ≤ e → depth < len k → byte pt k depth ≢ string depth)
      → (k : ℕ) → k < pt.cnt
      → Prefix pt len string k
      → len k ≤ depth
  all_short depth s e at differ k h p = elim (longer depth k p) [
    | inl low ↦ low
    | inr (below, same) ↦ elim (Bool-cases (ltb k s)) [
      | inl e1 ↦ at.outside k h p (inl (ground arith))
      | inr e1 ↦ elim (Bool-cases (ltb e k)) [
        | inl e2 ↦ at.outside k h p (inr (ground arith))
        | inr e2 ↦ absurd (differ k (ground arith) (ground arith) below same)
      ]
    ]
  ]

  -- The next byte is that of the part.
  pub next_level :
      (depth s e : ℕ)
      → Reached depth s e
      → ((i : ℕ) → s ≤ i → i ≤ e → byte pt i depth ≡ byte pt s depth)
      → byte pt s depth ≢ 0
      → string depth ≡ byte pt s depth
      → Reached (depth + 1) s e
  next_level depth s e at all nz hit = record {
    order = at.order;
    inside = at.inside;
    common = Common-next pt depth s e at.common all nz;
    along = λ x h. elim (Bool-cases (x == depth)) [
      | inl last ↦
          let same : x ≡ depth = ground arith in ap string same ∙ hit ∙ ap (byte pt s) (sym same)
      | inr ne ↦ at.along x (ground arith)
    ];
    outside = λ k h p out. let low = at.outside k h p out in omega arith;
  }

  -- The item where the part ends is a prefix.
  pub leaf_Longest :
      (depth s e : ℕ) → Reached depth s e → byte pt s depth ≡ 0 → Longest pt len string (some s)
  leaf_Longest depth s e at end =
      let order = at.order in
      let inside = at.inside in
      let deep = depth_le pt len ok depth s e at.common inside order in
      let own : len s ≡ depth = elim (Bool-cases (ltb depth (len s))) [
        | inl more ↦ absurd (((ok.text s (omega arith)).0 depth (ground arith)).0 end)
        | inr no_more ↦ ground arith
      ] in
      (
        omega arith,
        λ x h. at.along x (omega arith),
        λ m h p. elim (Bool-cases (m == s)) [
          | inl same ↦
              let eq : m ≡ s = ground arith in let lens : len m ≡ len s = ap len eq in omega arith
          | inr ne ↦ elim (Bool-cases (ltb s e)) [
            | inl wide ↦
                absurd (
                  zero_last pt len ok depth s e at.common inside s (omega arith) (ground arith) end)
            | inr single ↦
                let low = at.outside m h p (elim (Bool-cases (ltb m s)) [
                  | inl e1 ↦ inl (ground arith)
                  | inr e1 ↦ inr (ground arith)
                ]) in
                omega arith
          ]
        ],
      )
