-- ===== src/RangeMap/Levels.antt =====
-- The whole of the second part of `range_map_load`: all the trees, from the longest hashes on.
use esq.Base.{
  ℕ, zero, suc, ◌<◌, ◌≤◌, ◌≡◌, refl, sym, ap, subst, ◌∙◌, inl, inr, Bool, true, false, ◌||◌, List,
  [], ◌∷◌, ◌++◌, arith, ◌==◌, if◌then◌else◌, Bool-cases, length, take, Mem, done, fun_ext,
}
use esq.Chain.{null, has, Distinct}
use esq.Chain.Seg.{Seg, first, Seg-append, has-head}
use esq.RangeMap.RbTree.{Trees}
use esq.RangeMap.State.{Nodes, key_of}
use esq.RangeMap.Groups.{group, has-group, shorter, shorter-take}
use esq.RangeMap.{Index, link_level, link_levels}
use esq.RangeMap.Link.{Linking, Finds, link, head_group, own_length, link_node-Linking}

module _ (trees : Trees) (ns : Nodes) (all : List ℕ) where
  open trees use {Tree, IsTree, find, nodes}

  module _ (rb : ℕ → Tree) (ok : Finds trees ns all rb) (d : Distinct all) (steps : ℕ)
      (small : length all < steps) where
    index : Mem → Index trees
    index next = record { next = next; rb = rb }

    link_level-Linking :
        (l : ℕ) (todo : List ℕ) (next : Mem) (s : ℕ → Bool)
        → ((a : ℕ) → has a todo ≡ true → has a (nodes (rb l)) ≡ true)
        → Distinct todo
        → ((a : ℕ) → has a todo ≡ true → s a ≡ false)
        → Linking trees ns all next s
        → (next' : Mem) × (link_level trees steps ns l todo (record { next = next; rb = rb })
            ≡ done (record { next = next'; rb = rb }))
          × Linking trees ns all next' (λ a. has a todo || s a)
    unfolding link_level
    link_level-Linking l [] next s sub dt new linking = (next, refl, linking)
    link_level-Linking l (n ∷ todo) next s sub (nt, dt) new linking =
        let (xs, g) = head_group trees ns all rb ok l n (sub n (has-head n todo)) in
        let (next1, run1, linking1) =
          link_node-Linking trees ns all rb ok l n xs g d steps next s linking
            (new n (has-head n todo)) small in
        let still : (a : ℕ) → has a todo ≡ true → (a == n || s a) ≡ false = λ a m. later a m in
        let (next2, run2, linking2) =
          link_level-Linking l todo next1 (λ a. a == n || s a) (λ a m. sub a (ground (arith, m))) dt
            still linking1 in
        (next2, rw run1 run2, subst (Linking trees ns all next2) (fun_ext order) linking2)
      where
        later : (a : ℕ) → has a todo ≡ true → (a == n || s a) ≡ false
        later a m = elim (Bool-cases (a == n)) [
          | inl e ↦
              let same : a ≡ n = ground arith in
              absurd (cc (ap (λ (c : ℕ). has c todo) same, m, nt))
          | inr e ↦ ground (arith, e, new a (ground (arith, m)))
        ]

        order : (a : ℕ) → (has a todo || (a == n || s a)) ≡ (has a (n ∷ todo) || s a)
        order a = ground arith

    -- Of a node on which the levels below `l` leave their mark.
    level_sub : (l : ℕ) (a : ℕ) → has a (nodes (rb l)) ≡ true → ns.hash_length a ≡ l
    level_sub l a m =
        let (xs, g) = head_group trees ns all rb ok l a m in
        own_length trees ns all rb ok l a xs g d

    -- The first node of a group stands in the tree of its length.
    pub group_head :
        (l : ℕ) (h : List ℕ) (x : ℕ) (xs : List ℕ)
        → group ns all l h ≡ x ∷ xs
        → has x (nodes (rb l)) ≡ true
    group_head l h x xs g =
        let at : find (key_of ns) (rb l) h ≡ x = ok.found l h ∙ ap first g in
        subst (λ a. has a (nodes (rb l)) ≡ true) at
          (trees.found_nodes (key_of ns) (rb l) h (ok.tree l)
            λ z. ok.not_null l h x xs g (sym at ∙ z))

    pub link_levels-Linking :
        (l : ℕ) (next : Mem) (s : ℕ → Bool)
        → ((a : ℕ) → s a ≡ true → l ≤ ns.hash_length a)
        → Linking trees ns all next s
        → (next' : Mem) × (t : ℕ → Bool) × (link_levels trees steps ns l
              (record { next = next; rb = rb })
            ≡ done (record { next = next'; rb = rb }))
          × Linking trees ns all next' t
          × ((a : ℕ) → s a ≡ true → t a ≡ true)
          × ((l' : ℕ) (a : ℕ) → l' < l → has a (nodes (rb l')) ≡ true → t a ≡ true)
    unfolding link_levels
    link_levels-Linking zero next s above linking =
        (next, s, refl, linking, (λ a e. e), λ l' a small m. absurd (omega arith))
    link_levels-Linking (suc l) next s above linking =
        let (next1, run1, linking1) =
          link_level-Linking l (nodes (rb l)) next s (λ a m. m)
            (trees.nodes_distinct (key_of ns) (rb l) (ok.tree l)) fresh linking in
        let (next2, t, run2, linking2, keeps, marks) =
          link_levels-Linking l next1 (λ a. has a (nodes (rb l)) || s a) still linking1 in
        (
          next2,
          t,
          rw run1 run2,
          linking2,
          (λ a e. keeps a (ground (arith, e))),
          marked t keeps marks,
        )
      where
        fresh : (a : ℕ) → has a (nodes (rb l)) ≡ true → s a ≡ false
        fresh a m = elim (Bool-cases (s a)) [
          | inl e ↦ absurd (omega (arith, above a e, level_sub l a m))
          | inr e ↦ e
        ]

        still : (a : ℕ) → (has a (nodes (rb l)) || s a) ≡ true → l ≤ ns.hash_length a
        still a e = elim (Bool-cases (has a (nodes (rb l)))) [
          | inl m ↦ omega (arith, level_sub l a m)
          | inr m ↦ omega (arith, above a (rw m at e))
        ]

        marked :
            (t : ℕ → Bool)
            → ((a : ℕ) → (has a (nodes (rb l)) || s a) ≡ true → t a ≡ true)
            → ((l' : ℕ) (a : ℕ) → l' < l → has a (nodes (rb l')) ≡ true → t a ≡ true)
            → (l' a : ℕ) → l' < suc l
            → has a (nodes (rb l')) ≡ true
            → t a ≡ true
        marked t keeps marks l' a small m = elim (Bool-cases (l' == l)) [
          | inl e ↦
              let same : l' ≡ l = ground arith in
              let here : has a (nodes (rb l)) ≡ true =
                subst (λ k. has a (nodes (rb k)) ≡ true) same m in
              keeps a (rw here refl)
          | inr e ↦ marks l' a (ground arith) m
        ]

  -- When every group of a hash shorter than `bound` is linked, `next` leads through all shorter
  -- prefixes of a hash.
  pub Linking-Seg :
      (next : Mem) (t : ℕ → Bool) (bound : ℕ) (hash : List ℕ)
      → Linking trees ns all next t
      → ((l : ℕ) (h : List ℕ) (x : ℕ) (xs : List ℕ)
          → l < bound
          → group ns all l h ≡ x ∷ xs
          → t x ≡ true)
      → (l : ℕ) → l ≤ bound
      → Seg next (first (shorter ns all hash l)) (shorter ns all hash l) null
  unfolding Linking shorter
  Linking-Seg next t bound hash linking marked zero b = refl
  Linking-Seg next t bound hash linking marked (suc l) b =
      by_group (group ns all l (take l hash)) refl
        (Linking-Seg next t bound hash linking marked l (omega arith))
    where
      by_group :
          (g : List ℕ)
          → group ns all l (take l hash) ≡ g
          → Seg next (first (shorter ns all hash l)) (shorter ns all hash l) null
          → Seg next (first (g ++ shorter ns all hash l)) (g ++ shorter ns all hash l) null
      by_group [] e ih = ih
      by_group (x ∷ xs) e ih =
          let (el, eh) = has-group ns all l (take l hash) x (rw e (has-head x xs)) in
          let short : link trees ns all l x ≡ first (shorter ns all hash l) = ap first (
            shorter-take ns all l l (ns.hash x) hash (omega arith)
              (ap (λ k. take k (ns.hash x)) (sym el) ∙ eh)) in
          let on : (if t x then link trees ns all l x else null) ≡ first (shorter ns all hash l) =
            rw (marked l (take l hash) x xs (omega arith) e) short in
          Seg-append next x (x ∷ xs) (first (shorter ns all hash l)) (shorter ns all hash l) null
            (subst (Seg next x (x ∷ xs)) on (linking l (take l hash) x xs e)) ih
