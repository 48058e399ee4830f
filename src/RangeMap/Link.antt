-- ===== src/RangeMap/Link.antt =====
-- The second part of `range_map_load`: the last node of each hash is made to point at the nodes of the
-- longest shorter hash that is a prefix.
use esq.Base.{
  ℕ, zero, suc, ◌<◌, ◌≡◌, ◌≢◌, refl, sym, ap, subst, ◌∙◌, inl, inr, Bool, true, false, ◌||◌, List,
  [], ◌∷◌, ◌++◌, arith, ◌==◌, if◌then◌else◌, Bool-cases, length, length-filter, take, Mem, store,
  store_same, done,
}
use esq.Chain.{null, has, Distinct, last, has-last}
use esq.Chain.Seg.{Seg, first, Seg-store, Seg-last, Seg-end, Distinct-filter, has-head}
use esq.RangeMap.RbTree.{Trees}
use esq.RangeMap.State.{Nodes, key_of}
use esq.RangeMap.Groups.{ranges, group, has-group, shorter}
use esq.RangeMap.{Index, short_match, range_map_link_short_match}
use esq.RangeMap.Load.{IsIndex, find_end-last}

module _ (trees : Trees) (ns : Nodes) (all : List ℕ) where
  open trees use {Tree, IsTree, find, nodes}

  -- Where the nodes of a hash lead to.
  abbrev pub link : ℕ → ℕ → ℕ
  link l x = first (shorter ns all (ns.hash x) l)

  -- The groups are linked where their first node is in `s`, and end at NULL elsewhere.
  unfoldable pub Linking : Mem → (ℕ → Bool) → Type 0
  Linking next s =
      (l : ℕ) (h : List ℕ) (x : ℕ) (xs : List ℕ)
      → group ns all l h ≡ x ∷ xs
      → Seg next x (x ∷ xs) (if s x then link l x else null)

  -- The trees find the groups.
  pub record Finds (rb : ℕ → Tree) : Type 0 where
    pub tree : (l : ℕ) → IsTree (key_of ns) (rb l)
    pub found : (l : ℕ) (h : List ℕ) → find (key_of ns) (rb l) h ≡ first (group ns all l h)
    pub not_null : (l : ℕ) (h : List ℕ) (x : ℕ) (xs : List ℕ) → group ns all l h ≡ x ∷ xs → x ≢ null

  pub IsIndex-Finds : (idx : Index trees) → IsIndex trees ns idx all → Finds idx.rb
  IsIndex-Finds idx ok = record {
    tree = ok.tree;
    found = ok.found;
    not_null = λ l h x xs e. (subst (λ ys. Seg idx.next (first ys) ys null) e (ok.linked l h)).1;
  }

  pub IsIndex-Linking :
      (idx : Index trees) → IsIndex trees ns idx all → Linking idx.next (λ a. false)
  unfolding Linking
  IsIndex-Linking idx ok l h x xs e =
      subst (λ ys. Seg idx.next (first ys) ys null) e (ok.linked l h)

  module _ (rb : ℕ → Tree) (ok : Finds rb) where
    -- The search for a shorter prefix.
    pub short_match-shorter :
        (hash : List ℕ) (l : ℕ) → short_match trees ns rb hash l ≡ first (shorter ns all hash l)
    unfolding short_match shorter
    short_match-shorter hash zero = refl
    short_match-shorter hash (suc l) =
        by_group (group ns all l (take l hash)) refl (short_match-shorter hash l)
      where
        by_group :
            (g : List ℕ)
            → group ns all l (take l hash) ≡ g
            → short_match trees ns rb hash l ≡ first (shorter ns all hash l)
            → (if find (key_of ns) (rb l) (take l hash) == null
                then short_match trees ns rb hash l
                else find (key_of ns) (rb l) (take l hash))
              ≡ first (group ns all l (take l hash) ++ shorter ns all hash l)
        by_group [] e ih = rw (ok.found l (take l hash), e) ih
        by_group (x ∷ xs) e ih =
            let some_found : (x == null) ≡ false =
              ground (arith, ok.not_null l (take l hash) x xs e) in
            rw (ok.found l (take l hash), e, some_found) refl

    -- A node of a tree is the first of its group.
    pub head_group :
        (l n : ℕ)
        → has n (nodes (rb l)) ≡ true
        → (xs : List ℕ) × (group ns all l (key_of ns n) ≡ n ∷ xs)
    head_group l n m = by_group (group ns all l (key_of ns n)) refl
      where
        by_group :
            (g : List ℕ)
            → group ns all l (key_of ns n) ≡ g
            → (xs : List ℕ) × (group ns all l (key_of ns n) ≡ n ∷ xs)
        by_group [] e =
            let (nn, f) = trees.nodes_found (key_of ns) (rb l) n (ok.tree l) m in
            absurd (nn (sym f ∙ ok.found l (key_of ns n) ∙ ap first e))
        by_group (x ∷ xs) e =
            let (nn, f) = trees.nodes_found (key_of ns) (rb l) n (ok.tree l) m in
            let same : x ≡ n = sym (ap first e) ∙ sym (ok.found l (key_of ns n)) ∙ f in
            (xs, e ∙ ap (λ y. y ∷ xs) same)

    module _ (l n : ℕ) (xs : List ℕ) (g : group ns all l (key_of ns n) ≡ n ∷ xs)
        (d : Distinct all) where
      pub own_length : ns.hash_length n ≡ l
      own_length = (has-group ns all l (key_of ns n) n (rw g (has-head n xs))).0

      -- Two groups with a common node are the same.
      same_group :
          (l' : ℕ) (h' : List ℕ) (a : ℕ)
          → has a (group ns all l' h') ≡ true
          → has a (n ∷ xs) ≡ true
          → (l' ≡ l) × (h' ≡ key_of ns n)
      same_group l' h' a m k =
          let (al, ah) = has-group ns all l' h' a m in
          let (bl, bh) = has-group ns all l (key_of ns n) a (rw g k) in (sym al ∙ bl, sym ah ∙ bh)

      -- The last node of the group is linked.
      link_one-Linking :
          (next : Mem) (s : ℕ → Bool)
          → Linking next s
          → s n ≡ false
          → Linking (store next (last n xs) (link l n)) (λ a. a == n || s a)
      unfolding Linking
      link_one-Linking next s linking new l' h' x ys e = elim (Bool-cases (x == n)) [
        | inl at ↦
            let same : x ≡ n = ground arith in
            let n_in : has x (n ∷ xs) ≡ true =
              subst (λ a. has a (n ∷ xs) ≡ true) (sym same) (has-head n xs) in
            let (el, eh) = same_group l' h' x (rw e (has-head x ys)) n_in in
            let lists : x ∷ ys ≡ n ∷ xs = sym e ∙ same_lists l' h' el eh in
            let own : Seg next n (n ∷ xs) null =
              subst (λ t. Seg next n (n ∷ xs) (if t then link l n else null)) new
                (linking l (key_of ns n) n xs g) in
            let linked =
              Seg-last next n n xs null (link l n)
                (subst Distinct g (Distinct-filter (ranges ns l (key_of ns n)) all d)) own in
            let to : link l' x ≡ link l n = ap (link l') same ∙ ap (λ k. link k n) el in
            rw (at, to) (subst (λ zs. Seg written (first zs) zs (link l n)) (sym lists) linked)
        | inr other ↦ rw other (
            Seg-store next (last n xs) (link l n) x (x ∷ ys) (if s x then link l' x else null)
              (outside l' h' x ys e other) (linking l' h' x ys e))
      ]
        where
          written : Mem
          written = store next (last n xs) (link l n)

          same_lists :
              (l' : ℕ) (h' : List ℕ) → l' ≡ l → h' ≡ key_of ns n → group ns all l' h' ≡ n ∷ xs
          same_lists l' h' el eh = ap (λ k. group ns all k h') el ∙ ap (group ns all l) eh ∙ g

          outside :
              (l' : ℕ) (h' : List ℕ) (x : ℕ) (ys : List ℕ)
              → group ns all l' h' ≡ x ∷ ys
              → (x == n) ≡ false
              → has (last n xs) (x ∷ ys) ≡ false
          outside l' h' x ys e other = elim (Bool-cases (has (last n xs) (x ∷ ys))) [
            | inl m ↦
                let (el, eh) = same_group l' h' (last n xs) (rw e m) (has-last n xs) in
                let same : x ≡ n = ap first (sym e ∙ same_lists l' h' el eh) in
                absurd (ground arith)
            | inr m ↦ m
          ]

      -- The step of the code at the node.
      pub link_node-Linking :
          (steps : ℕ) (next : Mem) (s : ℕ → Bool)
          → Linking next s
          → s n ≡ false
          → length all < steps
          → (next' : Mem) × (range_map_link_short_match trees steps ns
                (record { next = next; rb = rb })
                l
                n
              ≡ done (record { next = next'; rb = rb }))
            × Linking next' (λ a. a == n || s a)
      unfolding range_map_link_short_match Linking
      link_node-Linking steps next s linking new small =
          let own : Seg next n (n ∷ xs) null =
            subst (λ t. Seg next n (n ∷ xs) (if t then link l n else null)) new
              (linking l (key_of ns n) n xs g) in
          let written = link_one-Linking next s linking new in
          let few : length xs < steps =
            omega (arith, small, ap length g, length-filter (ranges ns l (key_of ns n)) all) in
          let walk = find_end-last trees steps next n n xs few own in
          let value : short_match trees ns rb (ns.hash n) l ≡ link l n =
            short_match-shorter (ns.hash n) l in
          elim (Bool-cases (link l n == null)) [
            | inl e ↦
                let nothing : link l n ≡ null = ground arith in
                (
                  next,
                  rw (value, e) refl,
                  subst (λ m. Linking m (λ a. a == n || s a))
                      (store_same next (last n xs) (link l n)
                        (Seg-end next n n xs null own ∙ sym nothing))
                      written,
                )
            | inr e ↦ (store next (last n xs) (link l n), rw (value, e, walk) refl, written)
          ]
