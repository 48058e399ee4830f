-- ===== src/DoubleList/Left.antt =====
-- public/esqll.h: a node leaves a doubly linked list.
use esq.Base.{
  ℕ, ◌≡◌, ◌≢◌, refl, sym, subst, ◌∙◌, inl, inr, true, false, List, [], ◌∷◌, ◌++◌, arith, ◌==◌,
  if◌then◌else◌, Bool-cases, Mem, store, store_self, store_ne,
}
use esq.Chain.{null, has, Distinct}
use esq.Chain.Seg.{has_subst, Distinct-apart, Distinct-skip, Distinct-append_left}
use esq.DoubleList.{Links, Linked, IsLinked, Linked-store_prev, Linked-store_next}

-- DOUBLE_LL_LEFT
unfoldable pub double_ll_left : Links → ℕ → Links
unfolding store
double_ll_left l node =
    let p = l.prev node in
    let n = l.next node in
    if p == null
    then (if n == null
        then record l { head = null; tail = null }
        else record l { prev = store l.prev n null; head = n })
    else if n == null
    then record l { next = store l.next p null; tail = p }
    else (let next = store l.next p n in
        record l { next = next; prev = store l.prev (next node) p })

-- The last node, or what is before the list.
abbrev pub end_of : ℕ → List ℕ → ℕ
end_of before [] = before
end_of before (x ∷ xs) = end_of x xs

-- The nodes of a part stand between `before` and `f`.
abbrev pub Part : Mem → Mem → ℕ → ℕ → List ℕ → ℕ → Type 0
Part prev next before p [] f = p ≡ f
Part prev next before p (x ∷ xs) f =
    (p ≡ x) × (x ≢ null) × (prev x ≡ before) × Part prev next x (next x) xs f

pub Linked-split :
    (prev next : Mem) (before p t : ℕ) (xs ys : List ℕ)
    → Linked prev next before p t (xs ++ ys)
    → (f : ℕ) × Part prev next before p xs f × Linked prev next (end_of before xs) f t ys
Linked-split prev next before p t [] ys l = (p, refl, l)
Linked-split prev next before p t (x ∷ xs) ys (e, n, b, l) =
    let (f, part, rest) = Linked-split prev next x (next x) t xs ys l in (f, (e, n, b, part), rest)

Linked-join :
    (prev next : Mem) (before p t f : ℕ) (xs ys : List ℕ)
    → Part prev next before p xs f
    → Linked prev next (end_of before xs) f t ys
    → Linked prev next before p t (xs ++ ys)
Linked-join prev next before p t f [] ys e l = subst (λ q. Linked prev next before q t ys) (sym e) l
Linked-join prev next before p t f (x ∷ xs) ys (e, n, b, part) l =
    (e, n, b, Linked-join prev next x (next x) t f xs ys part l)

Part-store_prev :
    (prev next : Mem) (before p q v : ℕ) (xs : List ℕ) (f : ℕ)
    → has q xs ≡ false
    → Part prev next before p xs f
    → Part (store prev q v) next before p xs f
Part-store_prev prev next before p q v [] f h l = l
Part-store_prev prev next before p q v (x ∷ xs) f h (e, n, b, l) = (
  e,
  n,
  store_ne prev q v x (ground arith) ∙ b,
  Part-store_prev prev next x (next x) q v xs f (ground arith) l,
)

pub has-end_of : (x : ℕ) (xs : List ℕ) → has (end_of x xs) (x ∷ xs) ≡ true
has-end_of x [] = ground arith
has-end_of x (y ∷ ys) = ground (arith, has-end_of y ys)

-- The last node of a part is made to point elsewhere.
Part-end :
    (prev next : Mem) (before p x : ℕ) (xs : List ℕ) (f v : ℕ)
    → Distinct (x ∷ xs)
    → Part prev next before p (x ∷ xs) f
    → Part prev (store next (end_of x xs) v) before p (x ∷ xs) v
Part-end prev next before p x [] f v d (e, n, b, s) = (e, n, b, store_self next x v)
Part-end prev next before p x (y ∷ ys) f v (dx, d) (e, n, b, s) =
    let same : store next (end_of y ys) v x ≡ next x =
      store_ne next (end_of y ys) v x
        λ q. has_subst (end_of y ys) x (y ∷ ys) (sym q) dx (has-end_of y ys) in
    (e, n, b, rw same (Part-end prev next x (next x) y ys f v d s))

Part-end_not_null :
    (prev next : Mem) (before p x : ℕ) (xs : List ℕ) (f : ℕ)
    → Part prev next before p (x ∷ xs) f
    → end_of x xs ≢ null
Part-end_not_null prev next before p x [] f (e, n, b, s) = n
Part-end_not_null prev next before p x (y ∷ ys) f (e, n, b, s) =
    Part-end_not_null prev next x (next x) y ys f s

-- The first node gets another node before it.
Linked-first :
    (prev next : Mem) (before p t y : ℕ) (ys : List ℕ) (v : ℕ)
    → has y ys ≡ false
    → Linked prev next before p t (y ∷ ys)
    → Linked (store prev y v) next v y t (y ∷ ys)
Linked-first prev next before p t y ys v h (e, n, b, l) =
    (refl, n, store_self prev y v, Linked-store_prev prev next y (next y) t y v ys h l)

Distinct-behind :
    (xs : List ℕ) (y : ℕ) (ys : List ℕ)
    → Distinct (xs ++ (y ∷ ys))
    → (has y ys ≡ false) × Distinct ys
Distinct-behind [] y ys d = d
Distinct-behind (x ∷ xs) y ys (n, d) = Distinct-behind xs y ys d

-- DOUBLE_LL_LEFT takes a node out of the list that it is in, with the others in their order.
pub double_ll_left-IsLinked :
    (l : Links) (node : ℕ) (pre post : List ℕ)
    → IsLinked l (pre ++ (node ∷ post))
    → IsLinked (double_ll_left l node) (pre ++ post)
unfolding double_ll_left
double_ll_left-IsLinked l node pre post (linked, d) =
    let (f, part, (e, nn, b, rest)) =
      Linked-split l.prev l.next null l.head l.tail pre (node ∷ post) linked in
    (by_parts f pre post d part b rest, Distinct-skip pre node post d)
  where
    by_parts :
        (f : ℕ) (pre post : List ℕ)
        → Distinct (pre ++ (node ∷ post))
        → Part l.prev l.next null l.head pre f
        → l.prev node ≡ end_of null pre
        → Linked l.prev l.next node (l.next node) l.tail post
        → Linked
            (double_ll_left l node).prev
            (double_ll_left l node).next
            null
            (double_ll_left l node).head
            (double_ll_left l node).tail
            (pre ++ post)
    by_parts f [] [] d part b (z, t) =
        let run : double_ll_left l node ≡ record l { head = null; tail = null } =
          rw (b, z, double_ll_left) refl in
        subst (λ k. Linked k.prev k.next null k.head k.tail []) (sym run) (refl, refl)
    by_parts f [] (y ∷ ys) (dn, (dy, d)) part b (e, n, py, rest) =
        let some_next : (y == null) ≡ false = ground arith in
        let run : double_ll_left l node ≡ record l { prev = store l.prev y null; head = y } =
          rw (b, e, some_next, double_ll_left) refl in
        subst (λ k. Linked k.prev k.next null k.head k.tail (y ∷ ys)) (sym run)
          (Linked-first l.prev l.next node (l.next node) l.tail y ys null dy (e, n, py, rest))
    by_parts f (x ∷ xs) [] d part b (z, t) =
        let nn = Part-end_not_null l.prev l.next null l.head x xs f part in
        let some_prev : (end_of x xs == null) ≡ false = ground arith in
        let run : double_ll_left l node
            ≡ record l { next = store l.next (end_of x xs) null; tail = end_of x xs } =
          rw (b, some_prev, z, double_ll_left) refl in
        subst (λ k. Linked k.prev k.next null k.head k.tail ((x ∷ xs) ++ [])) (sym run)
          (Linked-join l.prev (store l.next (end_of x xs) null) null l.head (end_of x xs) null
            (x ∷ xs) []
            (Part-end l.prev l.next null l.head x xs f null
              (Distinct-append_left (x ∷ xs) (node ∷ []) d) part)
            (refl, refl))
    by_parts f (x ∷ xs) (y ∷ ys) d part b (e, n, py, rest) =
        let last_node = end_of x xs in
        let nn = Part-end_not_null l.prev l.next null l.head x xs f part in
        let some_prev : (end_of x xs == null) ≡ false = ground arith in
        let some_next : (y == null) ≡ false = ground arith in
        let out : has (end_of x xs) (node ∷ y ∷ ys) ≡ false =
          Distinct-apart (x ∷ xs) (node ∷ y ∷ ys) (end_of x xs) d (has-end_of x xs) in
        let other : (node ≡ end_of x xs → ⊥) = λ q. ground arith in
        let y_out : has y (x ∷ xs) ≡ false = elim (Bool-cases (has y (x ∷ xs))) [
          | inl h ↦ absurd (ground (arith, Distinct-apart (x ∷ xs) (node ∷ y ∷ ys) y d h))
          | inr h ↦ h
        ] in
        let run : double_ll_left l node ≡ record l {
          next = store l.next (end_of x xs) y;
          prev = store l.prev (store l.next (end_of x xs) y node) (end_of x xs);
        } =
          rw (b, some_prev, e, some_next, double_ll_left) refl in
        let at : store l.next (end_of x xs) y node ≡ y =
          store_ne l.next (end_of x xs) y node other ∙ e in
        let (dn, (dy, ds)) = Distinct-behind (x ∷ xs) node (y ∷ ys) d in
        subst (λ k. Linked k.prev k.next null k.head k.tail ((x ∷ xs) ++ (y ∷ ys))) (sym run)
          (subst
            (λ q.
              Linked (store l.prev q (end_of x xs)) (store l.next (end_of x xs) y) null l.head
                l.tail ((x ∷ xs) ++ (y ∷ ys)))
            (sym at)
            (Linked-join (store l.prev y (end_of x xs)) (store l.next (end_of x xs) y) null l.head
              l.tail y (x ∷ xs) (y ∷ ys)
              (Part-store_prev l.prev (store l.next (end_of x xs) y) null l.head y (end_of x xs)
                (x ∷ xs) y y_out
                (Part-end l.prev l.next null l.head x xs f y
                  (Distinct-append_left (x ∷ xs) (node ∷ y ∷ ys) d) part))
              (Linked-first l.prev (store l.next (end_of x xs) y) node (l.next node) l.tail y ys
                (end_of x xs) dy
                (Linked-store_next l.prev l.next node (l.next node) l.tail (end_of x xs) y (y ∷ ys)
                  (ground arith) (e, n, py, rest)))))
