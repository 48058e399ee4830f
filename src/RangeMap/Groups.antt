-- ===== src/RangeMap/Groups.antt =====
-- The nodes of a list by hash length and hash.
use esq.Base.{
  ℕ, zero, suc, ◌+◌, ◌≤◌, ◌≡◌, refl, sym, ap, ◌∙◌, inl, inr, Bool, true, ◌&&◌, List, [], ◌∷◌, ◌++◌,
  append-nil, arith, ◌==◌, if◌then◌else◌, Bool-cases, filter, filter-append, take,
}
use esq.Chain.{has}
use esq.Chain.Seg.{has-filter}
use esq.RangeMap.State.{same_bytes, Nodes, key_of}

pub same_bytes-eq : (xs ys : List ℕ) → same_bytes xs ys ≡ true → xs ≡ ys
same_bytes-eq [] [] h = refl
same_bytes-eq [] (y ∷ ys) h = absurd (cc h)
same_bytes-eq (x ∷ xs) [] h = absurd (cc h)
same_bytes-eq (x ∷ xs) (y ∷ ys) h =
    let e : x ≡ y = ground arith in
    let es : xs ≡ ys = same_bytes-eq xs ys (ground arith) in rw (e, es) refl

pub same_bytes_refl : (xs : List ℕ) → same_bytes xs xs ≡ true
same_bytes_refl [] = refl
same_bytes_refl (x ∷ xs) = ground (arith, same_bytes_refl xs)

-- The test of a hash length and a hash.
abbrev pub ranges : Nodes → ℕ → List ℕ → ℕ → Bool
ranges ns l h p = ns.hash_length p == l && same_bytes (key_of ns p) h

-- The nodes of `all` with this hash length and hash, in order.
abbrev pub group : Nodes → List ℕ → ℕ → List ℕ → List ℕ
group ns all l h = filter (ranges ns l h) all

pub ranges-eq :
    (ns : Nodes) (l : ℕ) (h : List ℕ) (p : ℕ)
    → ranges ns l h p ≡ true
    → (ns.hash_length p ≡ l) × (key_of ns p ≡ h)
ranges-eq ns l h p r = (ground arith, same_bytes-eq (key_of ns p) h (ground arith))

pub ranges_self : (ns : Nodes) (p : ℕ) → ranges ns (ns.hash_length p) (key_of ns p) p ≡ true
ranges_self ns p = ground (arith, same_bytes_refl (key_of ns p))

pub ranges_iff :
    (ns : Nodes) (l : ℕ) (h : List ℕ) (p : ℕ)
    → ns.hash_length p ≡ l
    → key_of ns p ≡ h
    → ranges ns l h p ≡ true
ranges_iff ns l h p e k = rw (sym e, sym k) (ranges_self ns p)

pub has-group :
    (ns : Nodes) (all : List ℕ) (l : ℕ) (h : List ℕ) (a : ℕ)
    → has a (group ns all l h) ≡ true
    → (ns.hash_length a ≡ l) × (key_of ns a ≡ h)
has-group ns all l h a m = ranges-eq ns l h a (has-filter (ranges ns l h) a all m).1

-- One more node at the end belongs to its own group.
pub group-push :
    (ns : Nodes) (all : List ℕ) (l : ℕ) (h : List ℕ) (p : ℕ)
    → group ns (all ++ p ∷ []) l h
      ≡ (if ranges ns l h p then group ns all l h ++ p ∷ [] else group ns all l h)
group-push ns all l h p =
    filter-append (ranges ns l h) all (p ∷ []) ∙ (elim (Bool-cases (ranges ns l h p)) [
      | inl e ↦ rw e refl
      | inr e ↦ rw e (append-nil (group ns all l h))
    ])

-- The nodes of `all` whose hash is a prefix of `hash` shorter than `l`, the longest hashes first.
unfoldable pub shorter : Nodes → List ℕ → List ℕ → ℕ → List ℕ
shorter ns all hash zero = []
shorter ns all hash (suc l) = group ns all l (take l hash) ++ shorter ns all hash l

pub take-take : (l m : ℕ) (xs : List ℕ) → l ≤ m → take l (take m xs) ≡ take l xs
take-take zero m xs h = refl
take-take (suc l) zero xs h = absurd (omega arith)
take-take (suc l) (suc m) [] h = refl
take-take (suc l) (suc m) (x ∷ xs) h = ap (λ ys. x ∷ ys) (take-take l m xs (omega arith))

-- Only the prefix counts.
pub shorter-take :
    (ns : Nodes) (all : List ℕ) (l m : ℕ) (h k : List ℕ)
    → l ≤ m + 1
    → take m h ≡ take m k
    → shorter ns all h l ≡ shorter ns all k l
unfolding shorter
shorter-take ns all zero m h k b e = refl
shorter-take ns all (suc l) m h k b e =
    let same : take l h ≡ take l k =
      sym (take-take l m h (omega arith)) ∙ ap (take l) e ∙ take-take l m k (omega arith) in
    rw same
      (ap (λ ys. group ns all l (take l k) ++ ys) (shorter-take ns all l m h k (omega arith) e))
