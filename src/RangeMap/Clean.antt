-- ===== src/RangeMap/Clean.antt =====
-- `range_map_clean`: the nodes that are marked for deletion leave the list and are freed.
use esq.Base.{
  ℕ, zero, suc, ◌<◌, ◌≡◌, refl, sym, subst, ◌∙◌, inl, inr, Bool, false, not, ◌||◌, List, [], ◌∷◌,
  ◌++◌, append-nil, append_assoc, arith, ◌==◌, if◌then◌else◌, Bool-cases, length, filter, Mem,
  store, done,
}
use esq.Chain.{null, has, Distinct, last, has-last}
use esq.Chain.Seg.{
  Seg, Seg-append, Seg-store, Seg-last, back, back-push, Seg-last_not_null, Distinct-apart,
  Distinct-skip, Distinct-append_left,
}
use esq.RangeMap.RbTree.{Trees}
use esq.RangeMap.State.{rm_node_delete, has_flag, Nodes}
use esq.RangeMap.{Loaded, clean_loop}

-- A node that is to go.
abbrev pub deleted : Nodes → ℕ → Bool
deleted ns p = has_flag (ns.flags p) rm_node_delete

-- The nodes that stay.
abbrev pub kept_nodes : Nodes → List ℕ → List ℕ
kept_nodes ns all = filter (λ p. not (deleted ns p)) all

-- The node at `p` is unlinked.
unlinked-Seg :
    (links : Mem) (head p x n : ℕ) (pre rest : List ℕ)
    → Seg links head pre p
    → Seg links n rest null
    → Distinct (pre ++ rest)
    → Seg
        (if back pre == null then links else store links (back pre) n)
        (if back pre == null then n else head)
        pre
        n
      × Seg (if back pre == null then links else store links (back pre) n) n rest null
unlinked-Seg links head p x n [] rest sp sr d = (refl, sr)
unlinked-Seg links head p x n (y ∷ ys) rest sp sr d =
    let some_node : (last y ys == null) ≡ false =
      ground (arith, Seg-last_not_null links head y ys p sp) in
    let first_part = Seg-last links head y ys p n (Distinct-append_left (y ∷ ys) rest d) sp in
    let apart = Distinct-apart (y ∷ ys) rest (last y ys) d (has-last y ys) in
    subst
      (λ t.
        Seg (if t then links else store links (last y ys) n) (if t then n else head) (y ∷ ys) n
        × Seg (if t then links else store links (last y ys) n) n rest null)
      (sym some_node) (first_part, Seg-store links (last y ys) n n rest null apart sr)

module _ (trees : Trees) (s0 : Loaded trees) where
  -- What `range_map_clean` changes, apart from the trees.
  abbrev pub cleaned : Mem → Mem → List ℕ → ℕ → Loaded trees
  cleaned links next freed head = record {
    nodes = record s0.nodes { next = next; all_node_list_next = links; freed = freed };
    map = record s0.map { all_list = head };
  }

  pub clean_loop_lem :
      (fuel : ℕ) (pre rest : List ℕ) (links next : Mem) (freed : List ℕ) (head p : ℕ)
      → Seg links head pre p
      → Seg links p rest null
      → Distinct (pre ++ rest)
      → length rest < fuel
      → (links' next' : Mem) × (freed' : List ℕ) × (head' : ℕ) × (clean_loop trees fuel
            (back pre)
            p
            (cleaned links next freed head)
          ≡ done (cleaned links' next' freed' head'))
        × Seg links' head' (pre ++ kept_nodes s0.nodes rest) null
        × ((a : ℕ) → has a freed' ≡ (has a (filter (deleted s0.nodes) rest) || has a freed))
  unfolding clean_loop
  clean_loop_lem zero pre rest links next freed head p sp sr d f = absurd (omega arith)
  clean_loop_lem (suc fuel) pre [] links next freed head p sp sr d f = (
    links,
    next,
    freed,
    head,
    rw sr refl,
    rw append-nil (subst (Seg links head pre) sr sp),
    λ a. refl,
  )
  clean_loop_lem (suc fuel) pre (x ∷ rest) links next freed head p sp (e, n, sr) d f =
      elim (Bool-cases (deleted s0.nodes x)) [
        | inl gone ↦
            let (sp', sr') =
              unlinked-Seg links head p x (links x) pre rest sp sr (Distinct-skip pre x rest d) in
            let (links1, next1, freed1, head1, run, chain, frees) =
              clean_loop_lem fuel pre rest
                (if back pre == null then links else store links (back pre) (links x)) next
                (x ∷ freed) (if back pre == null then links x else head) (links x) sp' sr'
                (Distinct-skip pre x rest d) (omega arith) in
            (
              links1,
              next1,
              freed1,
              head1,
              rw (e, more, gone) run,
              rw gone chain,
              λ a. frees a ∙ rw gone (order a),
            )
        | inr stays ↦
            let (links1, next1, freed1, head1, run, chain, frees) =
              clean_loop_lem fuel (pre ++ x ∷ []) rest links (store next x null) freed head
                (links x) pushed sr (rw join d) (omega arith) in
            (
              links1,
              next1,
              freed1,
              head1,
              rw (e, more, stays) (rw back-push at run),
              rw stays (rw append_assoc at chain),
              λ a. frees a ∙ rw stays refl,
            )
      ]
    where
      more : (x == null) ≡ false
      more = ground arith

      join : (pre ++ x ∷ []) ++ rest ≡ pre ++ (x ∷ rest)
      join = append_assoc pre (x ∷ []) rest

      pushed : Seg links head (pre ++ x ∷ []) (links x)
      pushed = Seg-append links head pre p (x ∷ []) (links x) sp (e, n, refl)

      order :
          (a : ℕ)
          → (has a (filter (deleted s0.nodes) rest) || (a == x || has a freed))
            ≡ ((a == x || has a (filter (deleted s0.nodes) rest)) || has a freed)
      order a = ground arith
