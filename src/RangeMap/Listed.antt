-- ===== src/RangeMap/Listed.antt =====
-- Lists of nodes as search trees, for small examples.
use esq.Base.{
  ℕ, ◌≡◌, ◌≢◌, refl, sym, ap, subst, ◌∙◌, inl, inr, true, List, [], ◌∷◌, arith, ◌==◌, if◌then◌else◌,
  Bool-cases,
}
use esq.Chain.{null, has, Distinct}
use esq.RangeMap.RbTree.{Trees}
use esq.RangeMap.State.{same_bytes}
use esq.RangeMap.Groups.{same_bytes-eq, same_bytes_refl}

abbrev pub find_listed : (ℕ → List ℕ) → List ℕ → List ℕ → ℕ
find_listed key [] k = null
find_listed key (p ∷ t) k =
    let rest = find_listed key t k in if same_bytes (key p) k then p else rest

abbrev pub IsListed : (ℕ → List ℕ) → List ℕ → Type 0
IsListed key [] = Unit
IsListed key (p ∷ t) = (p ≢ null) × (find_listed key t (key p) ≡ null) × IsListed key t

pub find_listed-has :
    (key : ℕ → List ℕ) (t : List ℕ) (a : ℕ)
    → IsListed key t
    → has a t ≡ true
    → (a ≢ null) × (find_listed key t (key a) ≡ a)
find_listed-has key [] a ok h = absurd (cc h)
find_listed-has key (p ∷ t) a (nn, new, ok) h = elim (Bool-cases (a == p)) [
  | inl e ↦
      let same : a ≡ p = ground arith in
      let hit : same_bytes (key p) (key a) ≡ true =
        ap (λ q. same_bytes (key p) (key q)) same ∙ same_bytes_refl (key p) in
      ((λ z. nn (sym same ∙ z)), rw hit (sym same))
  | inr e ↦
      let (na, found) = find_listed-has key t a ok (rw e at h) in
      elim (Bool-cases (same_bytes (key p) (key a))) [
        | inl hit ↦
            let keys : key p ≡ key a = same_bytes-eq (key p) (key a) hit in
            absurd (na (sym found ∙ ap (find_listed key t) (sym keys) ∙ new))
        | inr miss ↦ (na, rw miss found)
      ]
]

pub Distinct-listed : (key : ℕ → List ℕ) (t : List ℕ) → IsListed key t → Distinct t
Distinct-listed key [] ok = tt
Distinct-listed key (p ∷ t) (nn, new, ok) = (
  elim (Bool-cases (has p t)) [
    | inl h ↦ absurd (nn (sym (find_listed-has key t p ok h).1 ∙ new))
    | inr h ↦ h
  ],
  Distinct-listed key t ok,
)

pub find_listed_found :
    (key : ℕ → List ℕ) (t : List ℕ) (k : List ℕ)
    → find_listed key t k ≢ null
    → has (find_listed key t k) t ≡ true
find_listed_found key [] k h = absurd (h refl)
find_listed_found key (p ∷ t) k h = elim (Bool-cases (same_bytes (key p) k)) [
  | inl e ↦ rw e (ground arith)
  | inr e ↦
      let later : has (find_listed key t k) t ≡ true = find_listed_found key t k (rw e at h) in
      let step : find_listed key (p ∷ t) k ≡ find_listed key t k = rw e refl in
      subst (λ a. has a (p ∷ t) ≡ true) (sym step) (ground (arith, later))
]

-- The trees as lists of nodes.
abbrev pub listed : Trees
listed = record {
  Tree = List ℕ;
  init = [];
  find = find_listed;
  insert = λ key t p. p ∷ t;
  nodes = λ t. t;
  IsTree = IsListed;
  init-IsTree = λ key. tt;
  insert-IsTree = λ key t p ok nn new. (nn, new, ok);
  find-init = λ key k. refl;
  find-insert_self = λ key t p ok nn new. rw (same_bytes_refl (key p)) refl;
  find-insert_other = λ key t p k ok nn new ne. elim (Bool-cases (same_bytes (key p) k)) [
    | inl e ↦ absurd (ne (sym (same_bytes-eq (key p) k e)))
    | inr e ↦ rw e refl
  ];
  nodes_distinct = Distinct-listed;
  nodes_found = find_listed-has;
  found_nodes = λ key t k ok h. find_listed_found key t k h;
}
