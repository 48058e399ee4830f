-- ===== src/PathBloom/Members.antt =====
-- Filters that paths have been added to.
use esq.Base.{
  ℕ, ◌<◌, ◌≡◌, ◌⊎◌, refl, sym, subst, inl, inr, true, some, List, [], ◌∷◌, arith, ltb, ltb→lt, leb,
  ◌==◌, Bool-cases, length, length-slice, Mem, slice, strnlen,
}
use esq.PathBloom.{
  esq_path_bloom_max, Filter, new_filter, path_bloom_filter_new, magic_ok, with_bits, add_path,
  path_bloom_filter_add_path2, path_bloom_filter_add_path, check_exist,
  path_bloom_filter_check_exist2, path_bloom_hash0, path_bloom_hash1, path_bloom_hash2, has_bit,
}
use esq.PathBloom.Bits.{IsMap, set_bit-IsMap, has_bit-set_bit, has_bit-set_bit_other}

-- A filter made by `path_bloom_filter_new`, after calls that added the listed paths.
pub data Holds : Filter → List (List ℕ) → Type 0 where
  holds_new : (p : Filter) → path_bloom_filter_new true ≡ some p → Holds p []
  holds_add2 :
      (p p' : Filter) (path : List ℕ) (paths : List (List ℕ))
      → Holds p paths
      → path_bloom_filter_add_path2 (some p) (some path) ≡ some p'
      → Holds p' (path ∷ paths)
  holds_add :
      (p p' : Filter) (path : Mem) (paths : List (List ℕ))
      → Holds p paths
      → path_bloom_filter_add_path (some p) (some path) ≡ some p'
      → Holds p' (slice path 0 (strnlen path esq_path_bloom_max) ∷ paths)

abbrev pub Member : List ℕ → List (List ℕ) → Type 0
Member path [] = ⊥
Member path (q ∷ paths) = (path ≡ q) ⊎ Member path paths

-- The magic numbers are right, and only the four low bits of the cells are in use.
pub record IsFilter (p : Filter) : Type 0 where
  pub magic : magic_ok p ≡ true
  pub map0 : IsMap p.bitmap0
  pub map1 : IsMap p.bitmap1
  pub map2 : IsMap p.bitmap2

abbrev Finds : Filter → List ℕ → Type 0
Finds p path =
    (has_bit p.bitmap0 (path_bloom_hash0 path) ≡ true)
    × (has_bit p.bitmap1 (path_bloom_hash1 path) ≡ true)
    × (has_bit p.bitmap2 (path_bloom_hash2 path) ≡ true)

Finds-check : (p : Filter) (path : List ℕ) → IsFilter p → Finds p path → check_exist p path ≡ true
unfolding check_exist
Finds-check p path ok (h0, h1, h2) = rw (ok.magic, h0, h1, h2) refl

new-IsFilter : IsFilter new_filter
new-IsFilter = record {
  magic = refl;
  map0 = λ q. omega arith;
  map1 = λ q. omega arith;
  map2 = λ q. omega arith;
}

-- What adding a path gives.
record Added (p p' : Filter) (path : List ℕ) : Type 0 where
  pub well : IsFilter p'
  pub found : Finds p' path
  pub kept : (other : List ℕ) → Finds p other → Finds p' other

with_bits-Added : (p : Filter) (path : List ℕ) → IsFilter p → Added p (with_bits p path) path
unfolding with_bits
with_bits-Added p path ok = record {
  well = record {
    magic = ok.magic;
    map0 = set_bit-IsMap _ ok.map0 _;
    map1 = set_bit-IsMap _ ok.map1 _;
    map2 = set_bit-IsMap _ ok.map2 _;
  };
  found = (has_bit-set_bit _ ok.map0 _, has_bit-set_bit _ ok.map1 _, has_bit-set_bit _ ok.map2 _);
  kept = λ other (h0, h1, h2). (
    has_bit-set_bit_other _ ok.map0 _ _ h0,
    has_bit-set_bit_other _ ok.map1 _ _ h1,
    has_bit-set_bit_other _ ok.map2 _ _ h2,
  );
}

add_path-Added :
    (p p' : Filter) (path : List ℕ) → IsFilter p → add_path p path ≡ some p' → Added p p' path
unfolding add_path
add_path-Added p p' path ok h =
    let e : with_bits p path ≡ p' = cc (rw ok.magic at h) in
    subst (λ q. Added p q path) e (with_bits-Added p path ok)

add_path2-Added :
    (p p' : Filter) (path : List ℕ)
    → IsFilter p
    → path_bloom_filter_add_path2 (some p) (some path) ≡ some p'
    → Added p p' path × (0 < length path)
unfolding path_bloom_filter_add_path2
add_path2-Added p p' path ok h = elim (Bool-cases (ltb 0 (length path))) [
  | inl more ↦ (add_path-Added p p' path ok (rw more at h), ltb→lt _ _ more)
  | inr empty ↦ absurd (cc (rw empty at h))
]

add_string-Added :
    (p p' : Filter) (path : Mem)
    → IsFilter p
    → path_bloom_filter_add_path (some p) (some path) ≡ some p'
    → Added p p' (slice path 0 (strnlen path esq_path_bloom_max))
      × (0 < length (slice path 0 (strnlen path esq_path_bloom_max)))
unfolding path_bloom_filter_add_path
add_string-Added p p' path ok h = elim (Bool-cases (strnlen path esq_path_bloom_max == 0)) [
  | inl z ↦ absurd (cc (rw z at h))
  | inr nz ↦
      let h1 = rw nz at h in
      elim (Bool-cases (leb esq_path_bloom_max (strnlen path esq_path_bloom_max))) [
        | inl long ↦ absurd (cc (rw long at h1))
        | inr short ↦ (add_path-Added p p' _ ok (rw short at h1), rw length-slice (ground arith))
      ]
]

-- Every path of the list is found.
AllFound : Filter → List (List ℕ) → Type 0
AllFound p paths = (path : List ℕ) → Member path paths → Finds p path × (0 < length path)

AllFound-add :
    (p p' : Filter) (path : List ℕ) (paths : List (List ℕ))
    → Added p p' path
    → 0 < length path
    → AllFound p paths
    → AllFound p' (path ∷ paths)
unfolding AllFound
AllFound-add p p' path paths added more all other (inl e) =
    subst (λ q. Finds p' q × (0 < length q)) (sym e) (added.found, more)
AllFound-add p p' path paths added more all other (inr m) =
    let (finds, size) = all other m in (added.kept other finds, size)

Holds-AllFound :
    (p : Filter) (paths : List (List ℕ)) → Holds p paths → IsFilter p × AllFound p paths
unfolding AllFound path_bloom_filter_new
Holds-AllFound p [] (holds_new _ h) =
    let e : new_filter ≡ p = cc h in (subst IsFilter e new-IsFilter, λ path m. absurd m)
Holds-AllFound p' _ (holds_add2 p _ path paths before h) =
    let (ok, all) = Holds-AllFound p paths before in
    let (added, more) = add_path2-Added p p' path ok h in
    (added.well, AllFound-add p p' path paths added more all)
Holds-AllFound p' _ (holds_add p _ path paths before h) =
    let (ok, all) = Holds-AllFound p paths before in
    let (added, more) = add_string-Added p p' path ok h in
    (added.well, AllFound-add p p' _ paths added more all)

-- A path that has been added to a filter is found from then on, whatever else is added: the filter
-- has no false negatives.
pub path_bloom_filter_check_exist2-Member :
    (p : Filter) (paths : List (List ℕ)) (path : List ℕ)
    → Holds p paths
    → Member path paths
    → path_bloom_filter_check_exist2 (some p) (some path) ≡ true
unfolding path_bloom_filter_check_exist2 AllFound
path_bloom_filter_check_exist2-Member p paths path holds member =
    let (ok, all) = Holds-AllFound p paths holds in
    let (finds, size) = all path member in
    let more : ltb 0 (length path) ≡ true = ground arith in rw more (Finds-check p path ok finds)

-- In every filter that `path_bloom_filter_new` and calls that add paths make, the magic numbers are
-- right and no cell reaches 16: four bits of each byte of the maps are never used.
pub Holds-IsFilter : (p : Filter) (paths : List (List ℕ)) → Holds p paths → IsFilter p
Holds-IsFilter p paths holds = let (ok, _) = Holds-AllFound p paths holds in ok
