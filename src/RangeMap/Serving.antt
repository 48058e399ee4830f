-- ===== src/RangeMap/Serving.antt =====
-- The nodes that serve a hash, by what their own hashes are.
use esq.Base.{
  ℕ, zero, suc, ◌<◌, ◌≤◌, ◌≡◌, refl, sym, ap, ◌∙◌, inl, inr, Bool, true, not, ◌&&◌, ◌||◌, List, [],
  ◌∷◌, ◌++◌, arith, ◌==◌, Bool-cases, ltb, take, filter, done, length,
}
use esq.Chain.{has, Distinct, Chain, has-append}
use esq.Chain.Seg.{has-filter, has-head, Distinct-filter, Distinct-append}
use esq.RangeMap.RbTree.{Trees}
use esq.RangeMap.State.{hash_value_length, Nodes, key_of, same_bytes}
use esq.RangeMap.Groups.{group, ranges, has-group, shorter}
use esq.RangeMap.{Loaded, find_in_map, clean_and_load}
use esq.RangeMap.Clean.{deleted, kept_nodes}
use esq.RangeMap.Refine.{serving, SameNodes, IsMap, clean_and_load-Serves}

-- The hash of the node is a prefix of `hash`.
abbrev pub prefix_of : Nodes → List ℕ → ℕ → Bool
prefix_of ns hash a = same_bytes (key_of ns a) (take (ns.hash_length a) hash)

-- The hash lengths fall along the list.
abbrev pub LongestFirst : Nodes → List ℕ → Type 0
LongestFirst ns [] = Unit
LongestFirst ns (x ∷ xs) =
    ((a : ℕ) → has a xs ≡ true → ns.hash_length a ≤ ns.hash_length x) × LongestFirst ns xs

has-filter_eq : (f : ℕ → Bool) (a : ℕ) (xs : List ℕ) → has a (filter f xs) ≡ (has a xs && f a)
has-filter_eq f a [] = refl
has-filter_eq f a (x ∷ xs) = elim (Bool-cases (a == x)) [
  | inl e ↦
      let same : a ≡ x = ground arith in
      let at : f a ≡ f x = ap f same in
      elim (Bool-cases (f x)) [
        | inl t ↦ rw (t, at, t) (ground (arith, e))
        | inr t ↦ rw (t, at, t) (ground (arith, has-filter_eq f a xs, at, t))
      ]
  | inr e ↦ elim (Bool-cases (f x)) [
    | inl t ↦ rw t (ground (arith, e, has-filter_eq f a xs))
    | inr t ↦ rw t (ground (arith, e, has-filter_eq f a xs))
  ]
]

module _ (ns : Nodes) (all : List ℕ) (hash : List ℕ) where
  has-group_eq :
      (l a : ℕ)
      → has a (group ns all l (take l hash))
        ≡ (has a all && (ns.hash_length a == l && prefix_of ns hash a))
  has-group_eq l a =
      has-filter_eq (ranges ns l (take l hash)) a all ∙ (elim (Bool-cases (ns.hash_length a == l)) [
        | inl e ↦
            let same : ns.hash_length a ≡ l = ground arith in
            ap (λ k. has a all && (ns.hash_length a == l && same_bytes (key_of ns a) (take k hash)))
              (sym same)
        | inr e ↦ rw e refl
      ])

  has-shorter :
      (l a : ℕ)
      → has a (shorter ns all hash l)
        ≡ (has a all && (ltb (ns.hash_length a) l && prefix_of ns hash a))
  unfolding shorter
  has-shorter zero a = ground arith
  has-shorter (suc l) a =
      has-append a (group ns all l (take l hash)) (shorter ns all hash l)
      ∙ (ground (arith, has-group_eq l a, has-shorter l a))

  has-shorter_length : (l a : ℕ) → has a (shorter ns all hash l) ≡ true → ns.hash_length a < l
  has-shorter_length l a m = let both = sym (has-shorter l a) ∙ m in ground (arith, both)

  Distinct-shorter : (l : ℕ) → Distinct all → Distinct (shorter ns all hash l)
  unfolding shorter
  Distinct-shorter zero d = tt
  Distinct-shorter (suc l) d =
      Distinct-append (group ns all l (take l hash)) (shorter ns all hash l)
        (Distinct-filter (ranges ns l (take l hash)) all d) (Distinct-shorter l d)
        λ a m. elim (Bool-cases (has a (shorter ns all hash l))) [
          | inl k ↦
              let at = (has-group ns all l (take l hash) a m).0 in
              absurd (omega (arith, at, has-shorter_length l a k))
          | inr k ↦ k
        ]

  LongestFirst-append :
      (l : ℕ) (xs ys : List ℕ)
      → ((a : ℕ) → has a xs ≡ true → ns.hash_length a ≡ l)
      → ((a : ℕ) → has a ys ≡ true → ns.hash_length a < l)
      → LongestFirst ns ys
      → LongestFirst ns (xs ++ ys)
  LongestFirst-append l [] ys same below first_ys = first_ys
  LongestFirst-append l (x ∷ xs) ys same below first_ys = (
    λ a m. elim (Bool-cases (has a xs)) [
      | inl k ↦
          let ax : has a (x ∷ xs) ≡ true = ground (arith, k) in
          omega (arith, same a ax, same x (has-head x xs))
      | inr k ↦
          let later : has a ys ≡ true = ground (arith, k, m, has-append a xs ys) in
          omega (arith, below a later, same x (has-head x xs))
    ],
    LongestFirst-append l xs ys (λ a m. same a (ground (arith, m))) below first_ys,
  )

  LongestFirst-shorter : (l : ℕ) → LongestFirst ns (shorter ns all hash l)
  unfolding shorter
  LongestFirst-shorter zero = tt
  LongestFirst-shorter (suc l) =
      LongestFirst-append l (group ns all l (take l hash)) (shorter ns all hash l)
        (λ a m. (has-group ns all l (take l hash) a m).0) (has-shorter_length l)
        (LongestFirst-shorter l)

module _ (trees : Trees) where
  -- A search finds the nodes of `all` whose hashes, as they stand in `ns`, are prefixes of the hash.
  abbrev pub FindsPrefixes : Nodes → List ℕ → Loaded trees → Type 0
  FindsPrefixes ns all s =
      (hash : List ℕ)
      → (xs : List ℕ) × Chain s.nodes.next (find_in_map trees s hash) xs
        × Distinct xs
        × LongestFirst ns xs
        × ((a : ℕ) → has a xs ≡ (has a all && prefix_of ns hash a))

  -- A map is cleaned and loaded, whose list holds `all`, with hashes shorter than 32 bytes, no node
  -- twice, on more fuel than it has nodes. The calls end. Exactly the nodes that are marked for
  -- deletion are freed, the list holds the others in order, and no node changes but in its place in
  -- lists. For every hash, a search finds a list of different nodes, which `next` leads through to
  -- NULL: those of the remaining nodes whose hash is a prefix, the longest hashes first.
  pub clean_and_load-FindsPrefixes :
      (s : Loaded trees) (all : List ℕ) (fuel : ℕ)
      → IsMap trees s all
      → length all < fuel
      → (s' : Loaded trees) × (clean_and_load trees fuel s ≡ done s')
        × SameNodes s.nodes s'.nodes
        × IsMap trees s' (kept_nodes s.nodes all)
        × ((a : ℕ)
            → has a s'.nodes.freed ≡ ((has a all && deleted s.nodes a) || has a s.nodes.freed))
        × FindsPrefixes s.nodes (kept_nodes s.nodes all) s'
  clean_and_load-FindsPrefixes s all fuel ok small =
      let (s', run, same, ok', serves, frees) = clean_and_load-Serves trees s all fuel ok small in
      let kept = kept_nodes s.nodes all in
      (
        s',
        run,
        same,
        ok',
        λ a. frees a ∙ ap (λ t. t || has a s.nodes.freed) (has-filter_eq (deleted s.nodes) a all),
        λ hash. (
          serving s.nodes kept hash,
          (serves hash).1,
          Distinct-shorter s.nodes kept hash hash_value_length (Distinct-filter _ all ok.distinct),
          LongestFirst-shorter s.nodes kept hash hash_value_length,
          λ a. has-shorter s.nodes kept hash hash_value_length a ∙ all_short hash a,
        ),
      )
    where
      all_short :
          (hash : List ℕ) (a : ℕ)
          → (has a (kept_nodes s.nodes all)
              && (ltb (s.nodes.hash_length a) hash_value_length && prefix_of s.nodes hash a))
            ≡ (has a (kept_nodes s.nodes all) && prefix_of s.nodes hash a)
      all_short hash a = elim (Bool-cases (has a (kept_nodes s.nodes all))) [
        | inl m ↦
            let (here, stays) = has-filter (λ p. not (deleted s.nodes p)) a all m in
            let low : ltb (s.nodes.hash_length a) hash_value_length ≡ true =
              ground (arith, ok.short a here) in
            rw low refl
        | inr m ↦ rw m refl
      ]
