-- ===== src/RangeMap/Find.antt =====
-- The search in an index: `range_map_find_and_lock` starts at `longest`, above which no tree has a
-- node.
use esq.Base.{
  ℕ, zero, suc, ◌+◌, ◌<◌, ◌≤◌, ◌≡◌, ◌≢◌, refl, sym, ap, subst, ◌∙◌, inl, inr, true, false, List, [],
  ◌∷◌, arith, ◌==◌, Bool-cases, take,
}
use esq.Chain.{null, has}
use esq.Chain.Seg.{first}
use esq.RangeMap.RbTree.{Trees}
use esq.RangeMap.State.{Nodes, key_of}
use esq.RangeMap.Groups.{group, shorter}
use esq.RangeMap.{short_match, longest_of, longest_below, find_loop}
use esq.RangeMap.Link.{Finds, short_match-shorter}

module _ (trees : Trees) where
  open trees use {Tree, IsTree, find, nodes}

  longest_of_set : (l g : ℕ) (ns : List ℕ) → g ≢ 0 → longest_of trees l g ns ≡ g
  unfolding longest_of
  longest_of_set l g [] h = refl
  longest_of_set l g (n ∷ ns) h =
      let set : (g == 0) ≡ false = ground arith in rw set (longest_of_set l g ns h)

  longest_of_first : (l n : ℕ) (ns : List ℕ) → longest_of trees l 0 (n ∷ ns) ≡ l
  unfolding longest_of
  longest_of_first zero n [] = refl
  longest_of_first zero n (m ∷ ns) = longest_of_first zero m ns
  longest_of_first (suc l) n ns = longest_of_set (suc l) (suc l) ns (omega arith)

  longest_below_set : (rb : ℕ → Tree) (l g : ℕ) → g ≢ 0 → longest_below trees rb l g ≡ g
  unfolding longest_below
  longest_below_set rb zero g h = refl
  longest_below_set rb (suc l) g h =
      rw (longest_of_set l g (nodes (rb l)) h) (longest_below_set rb l g h)

  longest_below_self : (rb : ℕ → Tree) (l : ℕ) → longest_below trees rb l l ≡ l
  unfolding longest_below
  longest_below_self rb zero = refl
  longest_below_self rb (suc l) = longest_below_set rb (suc l) (suc l) (omega arith)

  -- Above the longest hash the trees are empty.
  pub longest_below_empty :
      (rb : ℕ → Tree) (bound l : ℕ)
      → longest_below trees rb bound 0 < l
      → l < bound
      → nodes (rb l) ≡ []
  unfolding longest_below
  longest_below_empty rb zero l a b = absurd (omega arith)
  longest_below_empty rb (suc k) l a b = by_tree (nodes (rb k)) refl (longest_below_empty rb k l)
    where
      by_tree :
          (ns : List ℕ)
          → nodes (rb k) ≡ ns
          → (longest_below trees rb k 0 < l → l < k → nodes (rb l) ≡ [])
          → nodes (rb l) ≡ []
      by_tree [] e ih =
          let a' : longest_below trees rb k 0 < l = rw e at a in
          elim (Bool-cases (l == k)) [
            | inl at ↦ let same : l ≡ k = ground arith in ap (λ i. nodes (rb i)) same ∙ e
            | inr ne ↦ ih a' (ground arith)
          ]
      by_tree (n ∷ ns) e ih =
          let top : k < l = rw (e, longest_of_first k n ns, longest_below_self rb k) at a in
          absurd (omega arith)

  pub longest_below_bound :
      (rb : ℕ → Tree) (bound : ℕ) → longest_below trees rb (suc bound) 0 ≤ bound
  unfolding longest_below
  longest_below_bound rb zero = by_tree (nodes (rb 0)) refl
    where
      by_tree : (ns : List ℕ) → nodes (rb 0) ≡ ns → longest_below trees rb (suc zero) 0 ≤ zero
      by_tree [] e = rw e (omega arith)
      by_tree (n ∷ ns) e = rw (e, longest_of_first 0 n ns) (omega arith)
  longest_below_bound rb (suc k) = by_tree (nodes (rb (suc k))) refl (longest_below_bound rb k)
    where
      by_tree :
          (ns : List ℕ)
          → nodes (rb (suc k)) ≡ ns
          → longest_below trees rb (suc k) 0 ≤ k
          → longest_below trees rb (suc (suc k)) 0 ≤ suc k
      by_tree [] e ih = rw e (omega (arith, ih))
      by_tree (n ∷ ns) e ih =
          rw (e, longest_of_first (suc k) n ns, longest_below_self rb (suc k)) (omega arith)

  module _ (ns : Nodes) (all : List ℕ) (rb : ℕ → Tree) (ok : Finds trees ns all rb) where
    -- The search is the one for the shorter prefixes.
    pub find_loop-shorter :
        (hash : List ℕ) (l : ℕ) → find_loop trees ns rb hash l ≡ first (shorter ns all hash l)
    unfolding find_loop short_match
    find_loop-shorter hash l = same l ∙ short_match-shorter trees ns all rb ok hash l
      where
        same : (l : ℕ) → find_loop trees ns rb hash l ≡ short_match trees ns rb hash l
        same zero = refl
        same (suc l) = rw (same l) refl

    -- Empty trees have no groups.
    group_empty : (l : ℕ) (h : List ℕ) → nodes (rb l) ≡ [] → group ns all l h ≡ []
    group_empty l h e = by_group (group ns all l h) refl
      where
        by_group : (g : List ℕ) → group ns all l h ≡ g → group ns all l h ≡ []
        by_group [] r = r
        by_group (x ∷ xs) r =
            let here : find (key_of ns) (rb l) h ≢ null =
              λ z. ok.not_null l h x xs r (ap first (sym r) ∙ sym (ok.found l h) ∙ z) in
            let m = trees.found_nodes (key_of ns) (rb l) h (ok.tree l) here in
            let no : has (find (key_of ns) (rb l) h) [] ≡ true =
              subst (λ zs. has (find (key_of ns) (rb l) h) zs ≡ true) e m in
            absurd (cc no)

    shorter_empty :
        (hash : List ℕ) (l m : ℕ)
        → l ≤ m
        → ((k : ℕ) → l ≤ k → k < m → nodes (rb k) ≡ [])
        → shorter ns all hash m ≡ shorter ns all hash l
    unfolding shorter
    shorter_empty hash l zero b e =
        let none_left : zero ≡ l = omega arith in ap (shorter ns all hash) none_left
    shorter_empty hash l (suc m) b e = elim (Bool-cases (l == suc m)) [
      | inl at ↦ let same : suc m ≡ l = ground arith in ap (shorter ns all hash) same
      | inr ne ↦
          rw (group_empty m (take m hash) (e m (ground arith) (omega arith)))
            (shorter_empty hash l m (ground arith) λ k c d. e k c (omega arith))
    ]

    -- `longest` loses nothing.
    pub find_loop_longest :
        (hash : List ℕ) (bound : ℕ)
        → find_loop trees ns rb hash (longest_below trees rb (suc bound) 0 + 1)
          ≡ first (shorter ns all hash (suc bound))
    find_loop_longest hash bound =
        let top = longest_below trees rb (suc bound) 0 in
        find_loop-shorter hash (top + 1)
        ∙ ap first (
            sym (
              shorter_empty hash (top + 1) (suc bound) (omega (arith, longest_below_bound rb bound))
                λ k c d. longest_below_empty rb (suc bound) k (omega arith) d))
