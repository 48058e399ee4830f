-- ===== src/RangeMap/RbTree.antt =====
-- The red-black trees of internal/tree.h as the range maps use them: trees of nodes, ordered by the
-- keys that the nodes have in memory. `find` and `insert` read the keys.
use esq.Base.{ℕ, ◌≡◌, ◌≢◌, true, List}
use esq.Chain.{null, has, Distinct}

pub record Trees : Type 1 where
  pub Tree : Type 0
  pub init : Tree
  pub find : (ℕ → List ℕ) → Tree → List ℕ → ℕ
  pub insert : (ℕ → List ℕ) → Tree → ℕ → Tree
  pub nodes : Tree → List ℕ
  -- The tree has been built by insertions under these keys.
  pub IsTree : (ℕ → List ℕ) → Tree → Type 0
  pub init-IsTree : (key : ℕ → List ℕ) → IsTree key init
  pub insert-IsTree :
      (key : ℕ → List ℕ) (t : Tree) (p : ℕ)
      → IsTree key t
      → p ≢ null
      → find key t (key p) ≡ null
      → IsTree key (insert key t p)
  pub find-init : (key : ℕ → List ℕ) (k : List ℕ) → find key init k ≡ null
  pub find-insert_self :
      (key : ℕ → List ℕ) (t : Tree) (p : ℕ)
      → IsTree key t
      → p ≢ null
      → find key t (key p) ≡ null
      → find key (insert key t p) (key p) ≡ p
  pub find-insert_other :
      (key : ℕ → List ℕ) (t : Tree) (p : ℕ) (k : List ℕ)
      → IsTree key t
      → p ≢ null
      → find key t (key p) ≡ null
      → k ≢ key p
      → find key (insert key t p) k ≡ find key t k
  -- The traversal meets each node once, and they are those that are found.
  pub nodes_distinct : (key : ℕ → List ℕ) (t : Tree) → IsTree key t → Distinct (nodes t)
  pub nodes_found :
      (key : ℕ → List ℕ) (t : Tree) (a : ℕ)
      → IsTree key t
      → has a (nodes t) ≡ true
      → (a ≢ null) × (find key t (key a) ≡ a)
  pub found_nodes :
      (key : ℕ → List ℕ) (t : Tree) (k : List ℕ)
      → IsTree key t
      → find key t k ≢ null
      → has (find key t k) (nodes t) ≡ true
