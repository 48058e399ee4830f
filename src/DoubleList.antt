-- ===== src/DoubleList.antt =====
-- public/esqll.h: doubly linked lists of nodes in memory, joined at the head. DoubleList/Left
-- has the way out of them.
pub mod Left
pub mod Others
mod Tests
use esq.Base.{
  ℕ, ◌≡◌, ◌≢◌, refl, sym, ap, subst, ◌∙◌, inl, inr, true, false, List, [], ◌∷◌, arith, ◌==◌,
  if◌then◌else◌, Bool-cases, Mem, store, store_self, store_ne,
}
use esq.Chain.{null, has, Distinct}

-- The fields of the nodes and the two ends of one list.
pub record Links : Type 0 where
  pub prev : Mem
  pub next : Mem
  pub head : ℕ
  pub tail : ℕ

-- DOUBLE_LL_JOIN_HEAD
unfoldable pub double_ll_join_head : Links → ℕ → Links
unfolding store
double_ll_join_head l node =
    if l.head == null
    then record {
      prev = store l.prev node null;
      next = store l.next node null;
      head = node;
      tail = node;
    }
    else record {
      prev = store (store l.prev node null) l.head node;
      next = store l.next node l.head;
      head = node;
      tail = l.tail;
    }

-- The nodes of the list stand between `before`, which `prev` of the first is, and the end.
abbrev pub Linked : Mem → Mem → ℕ → ℕ → ℕ → List ℕ → Type 0
Linked prev next before p t [] = (p ≡ null) × (t ≡ before)
Linked prev next before p t (x ∷ xs) =
    (p ≡ x) × (x ≢ null) × (prev x ≡ before) × Linked prev next x (next x) t xs

-- A list in memory.
abbrev pub IsLinked : Links → List ℕ → Type 0
IsLinked l xs = Linked l.prev l.next null l.head l.tail xs × Distinct xs

pub Linked-store_prev :
    (prev next : Mem) (before p t q v : ℕ) (xs : List ℕ)
    → has q xs ≡ false
    → Linked prev next before p t xs
    → Linked (store prev q v) next before p t xs
Linked-store_prev prev next before p t q v [] h l = l
Linked-store_prev prev next before p t q v (x ∷ xs) h (e, n, b, l) = (
  e,
  n,
  store_ne prev q v x (ground arith) ∙ b,
  Linked-store_prev prev next x (next x) t q v xs (ground arith) l,
)

pub Linked-store_next :
    (prev next : Mem) (before p t q v : ℕ) (xs : List ℕ)
    → has q xs ≡ false
    → Linked prev next before p t xs
    → Linked prev (store next q v) before p t xs
Linked-store_next prev next before p t q v [] h l = l
Linked-store_next prev next before p t q v (x ∷ xs) h (e, n, b, l) =
    let same : store next q v x ≡ next x = store_ne next q v x (ground arith) in
    (e, n, b, rw same (Linked-store_next prev next x (next x) t q v xs (ground arith) l))

-- DOUBLE_LL_JOIN_HEAD puts a node that is not in the list in front of it.
pub double_ll_join_head-IsLinked :
    (l : Links) (node : ℕ) (xs : List ℕ)
    → node ≢ null
    → has node xs ≡ false
    → IsLinked l xs
    → IsLinked (double_ll_join_head l node) (node ∷ xs)
unfolding double_ll_join_head
double_ll_join_head-IsLinked l node [] n h ((e, t), d) =
    let empty : (l.head == null) ≡ true = ground arith in
    rw empty
      ((refl, n, store_self l.prev node null, (store_self l.next node null, refl)), (refl, tt))
double_ll_join_head-IsLinked l node (x ∷ xs) n h ((e, nx, b, r), (dx, d)) =
    let full : (l.head == null) ≡ false = ground arith in
    let run : double_ll_join_head l node ≡ joined x = rw full (ap joined e) in
    subst (λ k. IsLinked k (node ∷ x ∷ xs)) (sym run) linked
  where
    joined : ℕ → Links
    joined first = record {
      prev = store (store l.prev node null) first node;
      next = store l.next node first;
      head = node;
      tail = l.tail;
    }

    apart : node ≡ x → ⊥
    apart k = ground arith

    linked : IsLinked (joined x) (node ∷ x ∷ xs)
    linked = (
      (
        refl,
        n,
        store_ne (store l.prev node null) x node node apart ∙ store_self l.prev node null,
        (
          store_self l.next node x,
          nx,
          store_self (store l.prev node null) x node,
          rw (store_ne l.next node x x λ k. apart (sym k)) (
              Linked-store_prev (store l.prev node null) (store l.next node x) x (l.next x) l.tail x
                node xs dx
                (Linked-store_prev l.prev (store l.next node x) x (l.next x) l.tail node null xs
                  (ground arith)
                  (Linked-store_next l.prev l.next x (l.next x) l.tail node x xs (ground arith)
                    r))),
        ),
      ),
      (h, (dx, d)),
    )

-- Another list that shares the fields of the nodes, but no node, stays as it is.
pub double_ll_join_head_other :
    (l : Links) (node before p t : ℕ) (ys : List ℕ)
    → has node ys ≡ false
    → (l.head ≢ null → has l.head ys ≡ false)
    → Linked l.prev l.next before p t ys
    → Linked (double_ll_join_head l node).prev (double_ll_join_head l node).next before p t ys
unfolding double_ll_join_head
double_ll_join_head_other l node before p t ys new first linked =
    elim (Bool-cases (l.head == null)) [
      | inl empty ↦
          let run : double_ll_join_head l node ≡ alone = rw empty refl in
          subst (λ k. Linked k.prev k.next before p t ys) (sym run)
            (Linked-store_prev l.prev (store l.next node null) before p t node null ys new
              (Linked-store_next l.prev l.next before p t node null ys new linked))
      | inr full ↦
          let run : double_ll_join_head l node ≡ joined = rw full refl in
          let out : has l.head ys ≡ false = first λ e. ground arith in
          subst (λ k. Linked k.prev k.next before p t ys) (sym run)
            (Linked-store_prev (store l.prev node null) (store l.next node l.head) before p t l.head
              node ys out
              (Linked-store_prev l.prev (store l.next node l.head) before p t node null ys new
                (Linked-store_next l.prev l.next before p t node l.head ys new linked)))
    ]
  where
    alone : Links
    alone = record {
      prev = store l.prev node null;
      next = store l.next node null;
      head = node;
      tail = node;
    }

    joined : Links
    joined = record {
      prev = store (store l.prev node null) l.head node;
      next = store l.next node l.head;
      head = node;
      tail = l.tail;
    }
