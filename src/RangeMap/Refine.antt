-- ===== src/RangeMap/Refine.antt =====
-- A range map as the list of its nodes: what `range_map_clean` and `range_map_load` make, seen by
-- `range_map_find_and_lock`.
use esq.Base.{
  ℕ, ◌<◌, ◌≡◌, refl, sym, subst, true, false, ◌||◌, List, [], arith, length, length-filter, filter,
  Mem, done, not,
}
use esq.Chain.{null, has, Distinct, Chain}
use esq.Chain.Seg.{Seg, first, Seg-Chain, Chain-Seg, has-filter, Distinct-filter}
use esq.RangeMap.RbTree.{Trees}
use esq.RangeMap.State.{hash_value_length, Nodes, key_of}
use esq.RangeMap.Groups.{shorter}
use esq.RangeMap.{
  Index, Loaded, range_map_build_cross_depth_reference, longest_below, range_map_load,
  range_map_clean, clean_and_load, find_in_map,
}
use esq.RangeMap.Load.{IsIndex, load_loop-IsIndex}
use esq.RangeMap.Link.{IsIndex-Finds, IsIndex-Linking}
use esq.RangeMap.Levels.{link_levels-Linking, Linking-Seg, group_head}
use esq.RangeMap.Find.{find_loop_longest}
use esq.RangeMap.Clean.{deleted, kept_nodes, cleaned, clean_loop_lem}

-- The nodes of `all` that serve a hash, those of the longest ranges first.
abbrev pub serving : Nodes → List ℕ → List ℕ → List ℕ
serving ns all hash = shorter ns all hash hash_value_length

-- The nodes differ in their places in lists at most.
abbrev pub SameNodes : Nodes → Nodes → Type 0
SameNodes ns ms =
    (ms.hash_length ≡ ns.hash_length)
    × (ms.hash ≡ ns.hash)
    × (ms.ip ≡ ns.ip)
    × (ms.port ≡ ns.port)
    × (ms.flags ≡ ns.flags)
    × (ms.address ≡ ns.address)
    × (ms.bucket ≡ ns.bucket)

module _ (trees : Trees) where
  open trees use {init}

  -- A map whose list holds the nodes of `all`.
  pub record IsMap (s : Loaded trees) (all : List ℕ) : Type 0 where
    pub listed : Chain s.nodes.all_node_list_next s.map.all_list all
    pub distinct : Distinct all
    pub short : (a : ℕ) → has a all ≡ true → s.nodes.hash_length a < hash_value_length

  -- A search in the map yields the nodes that serve the hash, by their hashes in `ns`, and `next` leads through them.
  abbrev pub Serves : Nodes → Loaded trees → List ℕ → Type 0
  Serves ns s all =
      (hash : List ℕ)
      → (find_in_map trees s hash ≡ first (serving ns all hash))
        × Chain s.nodes.next (find_in_map trees s hash) (serving ns all hash)

  empty-IsIndex :
      (ns : Nodes) (next : Mem) → IsIndex trees ns (record { next = next; rb = λ l. init }) []
  empty-IsIndex ns next = record {
    tree = λ l. trees.init-IsTree (key_of ns);
    found = λ l h. trees.find-init (key_of ns) h;
    linked = λ l h. refl;
  }

  -- After the first loop, for the second.
  module _ (s : Loaded trees) (all : List ℕ) (fuel : ℕ) (idx : Index trees)
      (ok : IsIndex trees s.nodes idx all) (d : Distinct all) (small : length all < fuel) where
    pub built-Serves :
        (next : Mem) × (range_map_build_cross_depth_reference trees fuel s.nodes idx
          ≡ done (record { next = next; rb = idx.rb }))
        × ((hash : List ℕ)
            → Seg next (first (serving s.nodes all hash)) (serving s.nodes all hash) null)
    unfolding range_map_build_cross_depth_reference
    built-Serves =
        let finds = IsIndex-Finds trees s.nodes all idx ok in
        let (next, t, run, linking, keeps, marks) =
          link_levels-Linking trees s.nodes all idx.rb finds d fuel small hash_value_length idx.next
            (λ a. false) (λ a e. absurd (cc e)) (IsIndex-Linking trees s.nodes all idx ok) in
        (
          next,
          run,
          λ hash.
              Linking-Seg trees s.nodes all next t hash_value_length hash linking
                (λ l h x xs b g.
                  marks l x b (group_head trees s.nodes all idx.rb finds d fuel small l h x xs g))
                hash_value_length (omega arith),
        )

  -- What `range_map_load` changes.
  abbrev indexed : Loaded trees → Mem → (ℕ → trees.Tree) → Loaded trees
  indexed s next rb = record {
    nodes = record s.nodes { next = next };
    map = record s.map { rb_by_length = rb; longest = longest_below trees rb hash_value_length 0 };
  }

  pub range_map_load-Serves :
      (s : Loaded trees) (all : List ℕ) (fuel : ℕ)
      → IsMap s all
      → (s.map.rb_by_length ≡ (λ l. init))
      → length all < fuel
      → (next : Mem) × (rb : ℕ → trees.Tree) × (range_map_load trees fuel s
          ≡ done (indexed s next rb))
        × Serves s.nodes (indexed s next rb) all
  unfolding range_map_load find_in_map shorter
  range_map_load-Serves s all fuel ok e small =
      let start =
        subst (λ r. IsIndex trees s.nodes (record { next = s.nodes.next; rb = r }) []) (sym e)
          (empty-IsIndex s.nodes s.nodes.next) in
      let (idx, run, index) =
        load_loop-IsIndex trees s.nodes fuel fuel
          (record { next = s.nodes.next; rb = s.map.rb_by_length }) [] all s.map.all_list start
          ok.listed ok.distinct small small in
      let (next, built, chains) = built-Serves s all fuel idx index ok.distinct small in
      (
        next,
        idx.rb,
        rw (run, built) refl,
        λ hash.
            let found =
              find_loop_longest trees s.nodes all idx.rb (IsIndex-Finds trees s.nodes all idx index)
                hash 31 in
            (
              found,
              subst (λ p. Chain next p (serving s.nodes all hash)) (sym found)
                  (Seg-Chain next _ _ (chains hash)),
            ),
      )

  -- A map whose list holds `all` is cleaned and loaded: the nodes that are marked for deletion are
  -- freed, and no others.
  pub clean_and_load-Serves :
      (s : Loaded trees) (all : List ℕ) (fuel : ℕ)
      → IsMap s all
      → length all < fuel
      → (s' : Loaded trees) × (clean_and_load trees fuel s ≡ done s')
        × SameNodes s.nodes s'.nodes
        × IsMap s' (kept_nodes s.nodes all)
        × Serves s.nodes s' (kept_nodes s.nodes all)
        × ((a : ℕ)
            → has a s'.nodes.freed ≡ (has a (filter (deleted s.nodes) all) || has a s.nodes.freed))
  unfolding clean_and_load range_map_clean shorter
  clean_and_load-Serves s all fuel ok small =
      let s0 : Loaded trees = record s { map = record s.map { rb_by_length = λ l. init } } in
      let (links, next, freed, head, cleans, chain, frees) =
        clean_loop_lem trees s0 fuel [] all s.nodes.all_node_list_next s.nodes.next s.nodes.freed
          s.map.all_list s.map.all_list refl
          (Chain-Seg s.nodes.all_node_list_next s.map.all_list all ok.listed) ok.distinct small in
      let kept = kept_nodes s.nodes all in
      let s1 : Loaded trees = cleaned trees s0 links next freed head in
      let ok1 : IsMap s1 kept = record {
        listed = Seg-Chain links head kept chain;
        distinct = Distinct-filter (λ p. not (deleted s.nodes p)) all ok.distinct;
        short = λ a m. ok.short a (has-filter (λ p. not (deleted s.nodes p)) a all m).0;
      } in
      let (next2, rb2, loads, serves) =
        range_map_load-Serves s1 kept fuel ok1 refl
          (omega (arith, small, length-filter (λ p. not (deleted s.nodes p)) all)) in
      let ok2 : IsMap (indexed s1 next2 rb2) kept = record {
        listed = ok1.listed;
        distinct = ok1.distinct;
        short = ok1.short;
      } in
      (
        indexed s1 next2 rb2,
        rw cleans loads,
        (refl, refl, refl, refl, refl, refl, refl),
        ok2,
        serves,
        frees,
      )
