-- ===== src/DoubleList/Others.antt =====
-- Where the neighbours of a node stand, and what its leaving does to other lists.
use esq.Base.{
  ℕ, ◌≡◌, ◌≢◌, ◌⊎◌, refl, sym, subst, inl, inr, true, false, List, [], ◌∷◌, ◌++◌, arith, ◌==◌,
  Bool-cases, store, store_self, store_ne,
}
use esq.Chain.{null, has, has-append}
use esq.DoubleList.{Links, Linked, IsLinked, Linked-store_prev, Linked-store_next}
use esq.DoubleList.Left.{double_ll_left, end_of, Linked-split, has-end_of}

-- Another list that shares the fields of the nodes, but neither neighbour, stays as it is.
pub double_ll_left_other :
    (l : Links) (node before p t : ℕ) (ys : List ℕ)
    → (l.prev node ≢ null → has (l.prev node) ys ≡ false)
    → (l.next node ≢ null → has (l.next node) ys ≡ false)
    → Linked l.prev l.next before p t ys
    → Linked (double_ll_left l node).prev (double_ll_left l node).next before p t ys
unfolding double_ll_left
double_ll_left_other l node before p t ys hp hn linked = elim (Bool-cases (l.prev node == null)) [
  | inl e1 ↦ elim (Bool-cases (l.next node == null)) [
    | inl e2 ↦
        let run : double_ll_left l node ≡ record l { head = null; tail = null } =
          rw (e1, e2, double_ll_left) refl in
        subst (λ k. Linked k.prev k.next before p t ys) (sym run) linked
    | inr e2 ↦
        let run : double_ll_left l node
            ≡ record l { prev = store l.prev (l.next node) null; head = l.next node } =
          rw (e1, e2, double_ll_left) refl in
        let out : has (l.next node) ys ≡ false = hn λ z. ground arith in
        subst (λ k. Linked k.prev k.next before p t ys) (sym run)
          (Linked-store_prev l.prev l.next before p t (l.next node) null ys out linked)
  ]
  | inr e1 ↦
      let prev_out : has (l.prev node) ys ≡ false = hp λ z. ground arith in
      elim (Bool-cases (l.next node == null)) [
        | inl e2 ↦
            let run : double_ll_left l node
                ≡ record l { next = store l.next (l.prev node) null; tail = l.prev node } =
              rw (e1, e2, double_ll_left) refl in
            subst (λ k. Linked k.prev k.next before p t ys) (sym run)
              (Linked-store_next l.prev l.next before p t (l.prev node) null ys prev_out linked)
        | inr e2 ↦
            let run : double_ll_left l node ≡ record l {
              next = store l.next (l.prev node) (l.next node);
              prev = store l.prev (store l.next (l.prev node) (l.next node) node) (l.prev node);
            } =
              rw (e1, e2, double_ll_left) refl in
            let out : has (l.next node) ys ≡ false = hn λ z. ground arith in
            subst (λ k. Linked k.prev k.next before p t ys) (sym run)
              (subst
                (λ q.
                  Linked (store l.prev q (l.prev node)) (store l.next (l.prev node) (l.next node))
                    before p t ys)
                (sym next_same)
                (Linked-store_prev l.prev (store l.next (l.prev node) (l.next node)) before p t
                  (l.next node) (l.prev node) ys out
                  (Linked-store_next l.prev l.next before p t (l.prev node) (l.next node) ys
                    prev_out linked)))
      ]
]
  where
    next_same : store l.next (l.prev node) (l.next node) node ≡ l.next node
    next_same = elim (Bool-cases (node == l.prev node)) [
      | inl at ↦
          let same : node ≡ l.prev node = ground arith in
          subst (λ q. store l.next (l.prev node) (l.next node) q ≡ l.next node) (sym same)
            (store_self l.next (l.prev node) (l.next node))
      | inr ne ↦ store_ne l.next (l.prev node) (l.next node) node (λ z. ground arith)
    ]

-- The neighbours of a node of a list are NULL or in the list.
pub neighbours :
    (l : Links) (node : ℕ) (pre post : List ℕ)
    → IsLinked l (pre ++ (node ∷ post))
    → ((l.prev node ≡ null) ⊎ (has (l.prev node) (pre ++ (node ∷ post)) ≡ true))
      × ((l.next node ≡ null) ⊎ (has (l.next node) (pre ++ (node ∷ post)) ≡ true))
neighbours l node pre post (linked, d) =
    let (f, part, (e, nn, b, rest)) =
      Linked-split l.prev l.next null l.head l.tail pre (node ∷ post) linked in
    (before pre b, behind post rest)
  where
    before :
        (pre : List ℕ)
        → l.prev node ≡ end_of null pre
        → (l.prev node ≡ null) ⊎ (has (l.prev node) (pre ++ (node ∷ post)) ≡ true)
    before [] b = inl b
    before (x ∷ xs) b = inr (
        subst (λ q. has q ((x ∷ xs) ++ (node ∷ post)) ≡ true) (sym b)
          (ground (arith, has-end_of x xs, has-append (end_of x xs) (x ∷ xs) (node ∷ post))))

    behind :
        (post : List ℕ)
        → Linked l.prev l.next node (l.next node) l.tail post
        → (l.next node ≡ null) ⊎ (has (l.next node) (pre ++ (node ∷ post)) ≡ true)
    behind [] (z, t) = inl z
    behind (y ∷ ys) (e, n, p, r) = inr (
        subst (λ q. has q (pre ++ (node ∷ y ∷ ys)) ≡ true) (sym e)
          (ground (arith, has-append y pre (node ∷ y ∷ ys))))
