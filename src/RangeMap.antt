-- ===== src/RangeMap.antt =====
-- src/range-map.c: maps from ranges of hashes to the nodes that serve them. A map keeps all its nodes
-- in a singly linked list, and an index of them that `range_map_load` builds: a tree for each hash
-- length, which holds the first node of each hash, from which `next` leads through the other nodes
-- of the hash and on to those of the longest shorter hash that is a prefix.
pub mod RbTree
pub mod State
pub mod Groups
pub mod Load
pub mod Link
pub mod Levels
pub mod Find
pub mod Clean
pub mod Refine
pub mod Serving
pub mod Commands
pub mod Edit
pub mod Addresses
pub mod Buckets
pub mod Edited
pub mod Delete
pub mod Add
pub mod Report
pub mod Connecting
pub mod Notify
pub mod Translate
mod Listed
mod Tests
use esq.Base.{
  ℕ, zero, suc, ◌+◌, ◌-◌, ◌*◌, Bool, true, false, not, ◌&&◌, ◌||◌, Option, none, some, List, [],
  ◌∷◌, ◌==◌, if◌then◌else◌, ltb, leb, take, length, within, Mem, store, slice, strnlen, Run, done,
  out_of_fuel, ◌>>=◌,
}
use esq.Chain.{null}
use RbTree.{Trees}
use State.{
  hash_value_length, rm_node_main, rm_node_delete, rm_node_me, has_flag, set_flag, clear_flag,
  same_bytes, Nodes, key_of,
}

-- The whole of what follows is over the red-black trees of internal/tree.h.
module _ (trees : Trees) where
  open trees use {Tree, init, find, insert, nodes}

  -- The index of a map: the `next` pointers of the nodes and the trees by hash length.
  pub record Index : Type 0 where
    pub next : Mem
    pub rb : ℕ → Tree

  -- `range_map_t`
  pub record RangeMap : Type 0 where
    pub name : List ℕ
    pub rb_by_length : ℕ → Tree
    pub all_list : ℕ
    pub longest : ℕ

  unfoldable pub set_tree : (ℕ → Tree) → ℕ → Tree → ℕ → Tree
  set_tree rb l t k = if k == l then t else rb k

  -- `while (s->next) s = s->next`
  unfoldable pub find_end : ℕ → Mem → ℕ → Run ℕ
  find_end zero next s = out_of_fuel
  find_end (suc fuel) next s =
      let rest = find_end fuel next (next s) in if next s == null then done s else rest

  unfoldable pub range_map_load_node : ℕ → Nodes → Index → ℕ → Run Index
  unfolding find_end set_tree store
  range_map_load_node fuel ns idx p =
      let l = ns.hash_length p in
      let s = find (key_of ns) (idx.rb l) (key_of ns p) in
      if s == null
      then done (record idx { rb = set_tree idx.rb l (insert (key_of ns) (idx.rb l) p) })
      else (find_end fuel idx.next s >>= λ k. done (record idx { next = store idx.next k p }))

  -- The loop of `range_map_load` at `p`, with `steps` for the walks inside it.
  unfoldable pub load_loop : ℕ → ℕ → Nodes → ℕ → Index → Run Index
  unfolding range_map_load_node store
  load_loop zero steps ns p idx = out_of_fuel
  load_loop (suc fuel) steps ns p idx =
      let rest =
        range_map_load_node steps ns (record idx { next = store idx.next p null }) p >>= λ i.
        load_loop fuel steps ns (ns.all_node_list_next p) i in
      if p == null then done idx else rest

  -- The search of `range_map_link_short_match` for the prefixes shorter than `l`.
  unfoldable pub short_match : Nodes → (ℕ → Tree) → List ℕ → ℕ → ℕ
  short_match ns rb hash zero = null
  short_match ns rb hash (suc l) =
      let rest = short_match ns rb hash l in
      let p = find (key_of ns) (rb l) (take l hash) in if p == null then rest else p

  -- For a node of hash length `l`: the length handed over in C is one less.
  unfoldable pub range_map_link_short_match : ℕ → Nodes → Index → ℕ → ℕ → Run Index
  unfolding short_match find_end store
  range_map_link_short_match fuel ns idx l n =
      let p = short_match ns idx.rb (ns.hash n) l in
      if p == null
      then done idx
      else (find_end fuel idx.next n >>= λ k. done (record idx { next = store idx.next k p }))

  -- RB_FOREACH over one tree.
  unfoldable pub link_level : ℕ → Nodes → ℕ → List ℕ → Index → Run Index
  unfolding range_map_link_short_match
  link_level fuel ns l [] idx = done idx
  link_level fuel ns l (n ∷ rest) idx =
      range_map_link_short_match fuel ns idx l n >>= λ i. link_level fuel ns l rest i

  -- The lengths below `l`, from the longest on.
  unfoldable pub link_levels : ℕ → Nodes → ℕ → Index → Run Index
  unfolding link_level
  link_levels fuel ns zero idx = done idx
  link_levels fuel ns (suc l) idx =
      link_level fuel ns l (nodes (idx.rb l)) idx >>= λ i. link_levels fuel ns l i

  -- `if (!longest) longest = l` at each node of a tree.
  unfoldable pub longest_of : ℕ → ℕ → List ℕ → ℕ
  longest_of l longest [] = longest
  longest_of l longest (n ∷ rest) = longest_of l (if longest == 0 then l else longest) rest

  -- `longest` after the loop over the lengths below `l`.
  unfoldable pub longest_below : (ℕ → Tree) → ℕ → ℕ → ℕ
  unfolding longest_of
  longest_below rb zero longest = longest
  longest_below rb (suc l) longest = longest_below rb l (longest_of l longest (nodes (rb l)))

  -- `range_map_build_cross_depth_reference`, with `longest` apart from the links, which do not read
  -- it.
  unfoldable pub range_map_build_cross_depth_reference : ℕ → Nodes → Index → Run Index
  unfolding link_levels
  range_map_build_cross_depth_reference fuel ns idx = link_levels fuel ns hash_value_length idx

  -- The nodes and the map after a call.
  pub record Loaded : Type 0 where
    pub nodes : Nodes
    pub map : RangeMap

  unfoldable pub range_map_load : ℕ → Loaded → Run Loaded
  unfolding load_loop range_map_build_cross_depth_reference longest_below
  range_map_load fuel s =
      load_loop fuel fuel s.nodes s.map.all_list
        (record { next = s.nodes.next; rb = s.map.rb_by_length })
      >>= λ i. range_map_build_cross_depth_reference fuel s.nodes i >>= λ k. done (record {
        nodes = record s.nodes { next = k.next };
        map = record s.map {
          rb_by_length = k.rb;
          longest = longest_below k.rb hash_value_length 0;
        };
      })

  -- The loop of `range_map_clean` at `p` behind `pp`, which frees the nodes that are to go.
  unfoldable pub clean_loop : ℕ → ℕ → ℕ → Loaded → Run Loaded
  unfolding store
  clean_loop zero pp p s = out_of_fuel
  clean_loop (suc fuel) pp p s =
      let n = s.nodes.all_node_list_next p in
      let kept =
        clean_loop fuel p n
          (record s { nodes = record s.nodes { next = store s.nodes.next p null } }) in
      let gone = clean_loop fuel pp n (record {
        nodes = record s.nodes {
          all_node_list_next =
              if pp == null
              then s.nodes.all_node_list_next
              else store s.nodes.all_node_list_next pp n;
          freed = p ∷ s.nodes.freed;
        };
        map = record s.map { all_list = if pp == null then n else s.map.all_list };
      }) in
      if p == null then done s else if has_flag (s.nodes.flags p) rm_node_delete then gone else kept

  unfoldable pub range_map_clean : ℕ → Loaded → Run Loaded
  unfolding clean_loop
  range_map_clean fuel s =
      clean_loop fuel null s.map.all_list
        (record s { map = record s.map { rb_by_length = λ l. init } })

  -- What `range_map_flush`, and the removal of nodes, do to a map that is found.
  unfoldable pub clean_and_load : ℕ → Loaded → Run Loaded
  unfolding range_map_clean range_map_load
  clean_and_load fuel s = range_map_clean fuel s >>= λ t. range_map_load fuel t

  -- The loop of `range_map_find_and_lock` over the lengths below `l`.
  unfoldable pub find_loop : Nodes → (ℕ → Tree) → List ℕ → ℕ → ℕ
  find_loop ns rb hash zero = null
  find_loop ns rb hash (suc l) =
      let rest = find_loop ns rb hash l in
      let p = find (key_of ns) (rb l) (take l hash) in if p == null then rest else p

  -- `range_map_find_and_lock` on the map that is found.
  unfoldable pub find_in_map : Loaded → List ℕ → ℕ
  unfolding find_loop
  find_in_map s hash = find_loop s.nodes s.map.rb_by_length hash (s.map.longest + 1)
