-- ===== src/RangeMap/Load.antt =====
-- The first part of `range_map_load`: the nodes go into the trees.
use esq.Base.{
  ℕ, zero, suc, ◌<◌, ◌≡◌, ◌≢◌, refl, sym, ap, subst, ◌∙◌, inl, inr, true, false, List, [], ◌∷◌,
  ◌++◌, append-nil, append_assoc, arith, ◌==◌, Bool-cases, length, length-append, length-filter,
  Mem, store, store_self, store_ne, done,
}
use esq.Chain.{null, has, Distinct, Chain, last, has-last}
use esq.Chain.Seg.{
  Seg, first, Seg-append, Seg-store, Seg-last, has-filter-false, Distinct-filter, has_subst,
  Distinct-before,
}
use esq.RangeMap.RbTree.{Trees}
use esq.RangeMap.State.{Nodes, key_of}
use esq.RangeMap.Groups.{ranges, group, ranges-eq, ranges_iff, has-group, group-push}
use esq.RangeMap.{Index, set_tree, find_end, range_map_load_node, load_loop}

-- The walk to the end of a list.
pub find_end-last :
    (trees : Trees) (fuel : ℕ) (next : Mem) (p x : ℕ) (xs : List ℕ)
    → length xs < fuel
    → Seg next p (x ∷ xs) null
    → find_end trees fuel next p ≡ done (last x xs)
unfolding find_end
find_end-last trees zero next p x xs f s = absurd (omega arith)
find_end-last trees (suc fuel) next p x [] f (e, n, z) = rw (e, z) refl
find_end-last trees (suc fuel) next p x (y ∷ ys) f (e, n, s) =
    let more : (next x == null) ≡ false = ground (arith, s.0, s.1) in
    rw (e, more) (find_end-last trees fuel next (next x) y ys (omega arith) s)

module _ (trees : Trees) (ns : Nodes) where
  open trees use {IsTree, find, insert}

  -- The index holds the nodes of `all`: the trees find the first of each group, from which `next`
  -- leads through the group.
  pub record IsIndex (idx : Index trees) (all : List ℕ) : Type 0 where
    pub tree : (l : ℕ) → IsTree (key_of ns) (idx.rb l)
    pub found : (l : ℕ) (h : List ℕ) → find (key_of ns) (idx.rb l) h ≡ first (group ns all l h)
    pub linked :
        (l : ℕ) (h : List ℕ) → Seg idx.next (first (group ns all l h)) (group ns all l h) null

  module _ (idx : Index trees) (all : List ℕ) (p : ℕ) (ok : IsIndex idx all)
      (new : has p all ≡ false) (not_null : p ≢ null) where
    -- The index after `p->next = NULL`.
    abbrev cleared : Index trees
    cleared = record idx { next = store idx.next p null }

    cleared-linked :
        (l : ℕ) (h : List ℕ)
        → Seg (store idx.next p null) (first (group ns all l h)) (group ns all l h) null
    cleared-linked l h =
        Seg-store idx.next p null _ _ null (has-filter-false (ranges ns l h) p all new)
          (ok.linked l h)

    -- The case of a hash that is not in its tree.
    load_new-IsIndex :
        group ns all (ns.hash_length p) (key_of ns p) ≡ []
        → IsIndex
            (record cleared {
              rb =
                  set_tree trees idx.rb
                    (ns.hash_length p)
                    (insert (key_of ns) (idx.rb (ns.hash_length p)) p);
            })
            (all ++ p ∷ [])
    unfolding set_tree
    load_new-IsIndex empty = record {
      tree = λ l. elim (Bool-cases (l == l0)) [
        | inl e ↦ rw e (trees.insert-IsTree (key_of ns) (idx.rb l0) p (ok.tree l0) not_null absent)
        | inr e ↦ rw e (ok.tree l)
      ];
      found = λ l h. elim (Bool-cases (ranges ns l h p)) [
        | inl e ↦
            let (el, eh) = ranges-eq ns l h p e in
            rw (group-push, e, sym el, sym eh, empty, same)
              (trees.find-insert_self (key_of ns) (idx.rb l0) p (ok.tree l0) not_null absent)
        | inr e ↦
            rw (group-push, e)
              (elim (Bool-cases (l == l0)) [
                | inr o ↦ rw o (ok.found l h)
                | inl o ↦
                    let el : l ≡ l0 = ground arith in
                    rw o (
                      trees.find-insert_other (key_of ns) (idx.rb l0) p h (ok.tree l0) not_null
                        absent (λ k. cc (ranges_iff ns l h p (sym el) (sym k), e))
                      ∙ rw (sym el) (ok.found l h))
              ])
      ];
      linked = λ l h. elim (Bool-cases (ranges ns l h p)) [
        | inl e ↦
            let (el, eh) = ranges-eq ns l h p e in
            rw (group-push, e, sym el, sym eh, empty) (refl, not_null, store_self idx.next p null)
        | inr e ↦ rw (group-push, e) (cleared-linked l h)
      ];
    }
      where
        l0 : ℕ
        l0 = ns.hash_length p

        same : (l0 == l0) ≡ true
        same = ground arith

        absent : find (key_of ns) (idx.rb l0) (key_of ns p) ≡ null
        absent = ok.found l0 (key_of ns p) ∙ ap first empty

    -- The case of a hash whose nodes are `x ∷ xs` so far.
    load_old-IsIndex :
        (x : ℕ) (xs : List ℕ)
        → group ns all (ns.hash_length p) (key_of ns p) ≡ x ∷ xs
        → Distinct all
        → IsIndex
            (record cleared { next = store (store idx.next p null) (last x xs) p })
            (all ++ p ∷ [])
    load_old-IsIndex x xs old d = record {
      tree = ok.tree;
      found = λ l h. elim (Bool-cases (ranges ns l h p)) [
        | inl e ↦
            let (el, eh) = ranges-eq ns l h p e in
            rw (group-push, e, sym el, sym eh, old) (ok.found l0 (key_of ns p) ∙ ap first old)
        | inr e ↦ rw (group-push, e) (ok.found l h)
      ];
      linked = λ l h. elim (Bool-cases (ranges ns l h p)) [
        | inl e ↦
            let (el, eh) = ranges-eq ns l h p e in
            rw (group-push, e, sym el, sym eh, old)
              (Seg-append (store (store idx.next p null) (last x xs) p) x (x ∷ xs) p (p ∷ []) null
                (Seg-last (store idx.next p null) x x xs null p distinct linked_x)
                (
                  refl,
                  not_null,
                  store_ne (store idx.next p null) (last x xs) p p apart_last
                      ∙ store_self idx.next p null,
                ))
        | inr e ↦
            rw (group-push, e)
              (Seg-store (store idx.next p null) (last x xs) p _ _ null (outside l h e)
                (cleared-linked l h))
      ];
    }
      where
        l0 : ℕ
        l0 = ns.hash_length p

        distinct : Distinct (x ∷ xs)
        distinct = subst Distinct old (Distinct-filter (ranges ns l0 (key_of ns p)) all d)

        linked_x : Seg (store idx.next p null) x (x ∷ xs) null
        linked_x =
            subst (λ ys. Seg (store idx.next p null) (first ys) ys null) old
              (cleared-linked l0 (key_of ns p))

        member : has (last x xs) (group ns all l0 (key_of ns p)) ≡ true
        member = rw old (has-last x xs)

        apart_last : p ≡ last x xs → ⊥
        apart_last e =
            has_subst (last x xs) p (group ns all l0 (key_of ns p)) (sym e)
              (has-filter-false (ranges ns l0 (key_of ns p)) p all new) member

        outside :
            (l : ℕ) (h : List ℕ)
            → ranges ns l h p ≡ false
            → has (last x xs) (group ns all l h) ≡ false
        outside l h e = elim (Bool-cases (has (last x xs) (group ns all l h))) [
          | inr out ↦ out
          | inl inside ↦
              let (al, ah) = has-group ns all l h (last x xs) inside in
              let (bl, bh) = has-group ns all l0 (key_of ns p) (last x xs) member in
              absurd (cc (ranges_iff ns l h p (sym bl ∙ al) (sym bh ∙ ah), e))
        ]

    -- One node goes into the index, behind the others of its hash.
    load_node-IsIndex :
        (steps : ℕ)
        → length all < steps
        → Distinct all
        → (idx' : Index trees) × (range_map_load_node trees steps ns cleared p ≡ done idx')
          × IsIndex idx' (all ++ p ∷ [])
    unfolding range_map_load_node
    load_node-IsIndex steps enough d = by_group (group ns all l0 (key_of ns p)) refl
      where
        l0 : ℕ
        l0 = ns.hash_length p

        by_group :
            (g : List ℕ)
            → group ns all l0 (key_of ns p) ≡ g
            → (idx' : Index trees) × (range_map_load_node trees steps ns cleared p ≡ done idx')
              × IsIndex idx' (all ++ p ∷ [])
        by_group [] e =
            let none_found : (find (key_of ns) (idx.rb l0) (key_of ns p) == null) ≡ true =
              rw (ok.found l0 (key_of ns p), e) refl in
            (_, rw none_found refl, load_new-IsIndex e)
        by_group (x ∷ xs) e =
            let at : find (key_of ns) (idx.rb l0) (key_of ns p) ≡ x =
              ok.found l0 (key_of ns p) ∙ ap first e in
            let linked_x : Seg (store idx.next p null) x (x ∷ xs) null =
              subst (λ ys. Seg (store idx.next p null) (first ys) ys null) e
                (cleared-linked l0 (key_of ns p)) in
            let some_found : (x == null) ≡ false = ground (arith, linked_x.1) in
            let fuel : length xs < steps =
              omega (arith, length-filter (ranges ns l0 (key_of ns p)) all, ap length e) in
            let walk = find_end-last trees steps (store idx.next p null) x x xs fuel linked_x in
            (_, rw (at, some_found, walk) refl, load_old-IsIndex x xs e d)

  -- The loop of `range_map_load`, where `all` is in the index already.
  pub load_loop-IsIndex :
      (fuel steps : ℕ) (idx : Index trees) (all rest : List ℕ) (p : ℕ)
      → IsIndex idx all
      → Chain ns.all_node_list_next p rest
      → Distinct (all ++ rest)
      → length rest < fuel
      → length (all ++ rest) < steps
      → (idx' : Index trees) × (load_loop trees fuel steps ns p idx ≡ done idx')
        × IsIndex idx' (all ++ rest)
  unfolding load_loop
  load_loop-IsIndex zero steps idx all rest p ok c d f g = absurd (omega arith)
  load_loop-IsIndex (suc fuel) steps idx all [] p ok c d f g = (idx, rw c refl, rw append-nil ok)
  load_loop-IsIndex (suc fuel) steps idx all (x ∷ rest) p ok (e, n, c) d f g =
      let (new, da) = Distinct-before all x rest d in
      let small : length all < steps = omega (arith, length-append all (x ∷ rest)) in
      let more : (x == null) ≡ false = ground arith in
      let (idx1, run1, ok1) = load_node-IsIndex idx all x ok new n steps small da in
      let join : (all ++ x ∷ []) ++ rest ≡ all ++ (x ∷ rest) = append_assoc all (x ∷ []) rest in
      let (idx', run, ok') =
        load_loop-IsIndex fuel steps idx1 (all ++ x ∷ []) rest (ns.all_node_list_next x) ok1 c
          (rw join d) (omega arith) (rw join g) in
      (idx', rw (e, more, run1) run, rw (sym join) ok')
