-- ===== src/RangeMap/Edited.antt =====
-- What the functions that change a map do to the list of its nodes.
use esq.Base.{
  ℕ, zero, suc, ◌<◌, ◌≡◌, ◌≢◌, ◌⊎◌, refl, ap, fun_ext, ◌∙◌, inl, inr, true, false, not, ◌&&◌, ◌||◌,
  none, List, [], ◌∷◌, arith, ◌==◌, Bool-cases, length, filter, store, done,
}
use esq.Chain.{null, has, Chain}
use esq.Chain.Seg.{has-head}
use esq.RangeMap.RbTree.{Trees}
use esq.RangeMap.State.{rm_node_delete, has_flag, set_flag, Nodes}
use esq.RangeMap.{Loaded}
use esq.RangeMap.Clean.{deleted, kept_nodes}
use esq.RangeMap.Refine.{SameNodes, IsMap}
use esq.RangeMap.Serving.{FindsPrefixes, clean_and_load-FindsPrefixes}
use esq.RangeMap.Commands.{is_node, range_map_find_node, Maps, at_map, put_map}
use esq.RangeMap.Edit.{mark_deleted, reload}

-- The search for a node in a list.
abbrev pub SearchedNode : Nodes → ℕ → ℕ → List ℕ → List ℕ → ℕ → Type 0
SearchedNode ns ip port hash all p =
    ((p ≡ null) × ((a : ℕ) → has a all ≡ true → is_node ns ip port hash a ≡ false))
    ⊎ ((p ≢ null) × (has p all ≡ true) × (is_node ns ip port hash p ≡ true))

pub range_map_find_node-SearchedNode :
    (fuel : ℕ) (ns : Nodes) (ip port : ℕ) (hash all : List ℕ) (p : ℕ)
    → Chain ns.all_node_list_next p all
    → length all < fuel
    → (q : ℕ) × (range_map_find_node fuel ns ip port hash p ≡ done q)
      × SearchedNode ns ip port hash all q
unfolding range_map_find_node
range_map_find_node-SearchedNode zero ns ip port hash all p c f = absurd (omega arith)
range_map_find_node-SearchedNode (suc fuel) ns ip port hash [] p c f =
    (null, rw c refl, inl (refl, λ a h. absurd (cc h)))
range_map_find_node-SearchedNode (suc fuel) ns ip port hash (x ∷ all) p (e, n, c) f =
    let more : (x == null) ≡ false = ground arith in
    let (q, run, searched) =
      range_map_find_node-SearchedNode fuel ns ip port hash all (ns.all_node_list_next x) c
        (omega arith) in
    elim (Bool-cases (is_node ns ip port hash x)) [
      | inl this ↦ (x, rw (e, more, this) refl, inr (n, has-head x all, this))
      | inr other ↦ (q, rw (e, more, other) run, later q other searched)
    ]
  where
    later :
        (q : ℕ)
        → is_node ns ip port hash x ≡ false
        → SearchedNode ns ip port hash all q
        → SearchedNode ns ip port hash (x ∷ all) q
    later q other (inl (z, no_node)) = inl (
      z,
      λ a h. elim (Bool-cases (a == x)) [
        | inl at ↦ let same : a ≡ x = ground arith in ap (is_node ns ip port hash) same ∙ other
        | inr ne ↦ no_node a (rw ne at h)
      ],
    )
    later q other (inr (z, h, this)) = inr (z, ground (arith, h), this)

has_flag-set_flag : (f : ℕ) → has_flag (set_flag f rm_node_delete) rm_node_delete ≡ true
has_flag-set_flag f = elim (Bool-cases (has_flag f rm_node_delete)) [
  | inl e ↦ rw e e
  | inr e ↦ rw e (ground arith)
]

-- A node that is marked is deleted, and the others are as before.
pub deleted-mark_deleted :
    (ns : Nodes) (p a : ℕ) → deleted (mark_deleted ns p) a ≡ (a == p || deleted ns a)
unfolding store
deleted-mark_deleted ns p a = elim (Bool-cases (a == p)) [
  | inl e ↦ let at : a ≡ p = ground arith in rw e (has_flag-set_flag (ns.flags p))
  | inr e ↦ rw e refl
]

module _ (trees : Trees) (s : Maps trees) (i : ℕ) (all : List ℕ) (fuel : ℕ)
    (ok : IsMap trees (at_map trees s i) all) (small : length all < fuel) where
  -- A map is made anew.
  pub reload-FindsPrefixes :
      (t : Loaded trees) × (reload trees fuel s i ≡ done (put_map trees s i t, none))
      × SameNodes s.nodes t.nodes
      × IsMap trees t (kept_nodes s.nodes all)
      × ((a : ℕ) → has a t.nodes.freed ≡ ((has a all && deleted s.nodes a) || has a s.nodes.freed))
      × FindsPrefixes trees s.nodes (kept_nodes s.nodes all) t
  unfolding reload
  reload-FindsPrefixes =
      let (t, run, same, ok', frees, finds) =
        clean_and_load-FindsPrefixes trees (at_map trees s i) all fuel ok small in
      (t, rw run refl, same, ok', frees, finds)

  module _ (p : ℕ) where
    -- The nodes that stay where `p` is deleted too.
    abbrev pub others : List ℕ
    others = filter (λ a. not (a == p || deleted s.nodes a)) all

    pub kept_others : kept_nodes (mark_deleted s.nodes p) all ≡ others
    kept_others =
        ap (λ f. filter (λ (a : ℕ). not (f a)) all) (fun_ext (deleted-mark_deleted s.nodes p))

    pub marked-IsMap :
        IsMap trees (record (at_map trees s i) { nodes = mark_deleted s.nodes p }) all
    marked-IsMap = record { listed = ok.listed; distinct = ok.distinct; short = ok.short }
