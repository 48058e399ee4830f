-- ===== src/RangeMap/Add.antt =====
-- `range_map_add_node`.
use esq.Base.{
  ℕ, ◌+◌, ◌<◌, ◌≡◌, ◌≢◌, ◌⊎◌, refl, sym, ap, subst, ◌∙◌, inl, inr, true, false, none, some, List,
  ◌∷◌, arith, ◌==◌, if◌then◌else◌, Bool-cases, length, length-slice, Mem, store, store_self, slice,
  literal, take, take-slice, slice-literal, done,
}
use esq.Chain.{null, has, Chain}
use esq.Chain.Seg.{Seg-store, Seg-Chain, Chain-Seg}
use esq.RangeMap.RbTree.{Trees}
use esq.RangeMap.State.{hash_value_length, Nodes, key_of, same_bytes}
use esq.RangeMap.Groups.{same_bytes_refl}
use esq.RangeMap.{Loaded}
use esq.RangeMap.Refine.{IsMap}
use esq.RangeMap.Commands.{
  Message, node_already_exist, no_memory, Params, translate_mkc_params, is_node, Machine, Maps,
  at_map, put_map, range_map_find_by_name,
}
use esq.RangeMap.Edit.{Reply, fill_node, add_translated, range_map_add_node}
use esq.RangeMap.Translate.{Accepted, translate_mkc_params-Accepted}
use esq.RangeMap.Edited.{range_map_find_node-SearchedNode}

is_node_lem :
    (ns : Nodes) (ip port : ℕ) (hash : List ℕ) (p : ℕ)
    → ns.ip p ≡ ip
    → ns.port p ≡ port
    → ns.hash_length p ≡ length hash
    → key_of ns p ≡ hash
    → is_node ns ip port hash p ≡ true
is_node_lem ns ip port hash p i o l k =
    let same : same_bytes (key_of ns p) hash ≡ true =
      subst (λ h. same_bytes h hash ≡ true) (sym k) (same_bytes_refl hash) in
    ground arith

module _ (trees : Trees) (s : Maps trees) (i : ℕ) (all : List ℕ) (fuel : ℕ)
    (ok : IsMap trees (at_map trees s i) all) (small : length all < fuel) (machine : Machine)
    (n : ℕ) (map_name : List ℕ) (ip_str : Mem) (port flags : ℕ) (hash_string : Mem)
    (params : Params) (named : range_map_find_by_name trees s map_name ≡ some i)
    (short : params.hash_len < hash_value_length) (new : has n all ≡ false) where
  abbrev hash : List ℕ
  hash = slice params.hash_buffer 0 params.hash_len

  abbrev filled : Nodes
  filled =
      fill_node machine n map_name ip_str hash_string port flags params (s.list i).all_list s.nodes

  -- The map with the new node in front.
  abbrev pub added : Loaded trees
  added = record { nodes = filled; map = record (s.list i) { all_list = n } }

  -- The new node is the one that is asked for.
  filled-is_node : is_node filled params.ip port hash n ≡ true
  unfolding fill_node
  filled-is_node =
      let own_hash : take params.hash_len (slice (literal hash) 0 (hash_value_length + 8)) ≡ hash =
        take-slice (literal hash) 0 (hash_value_length + 8) params.hash_len (omega arith)
        ∙ subst (λ k. slice (literal hash) 0 k ≡ hash)
            (length-slice params.hash_buffer 0 params.hash_len) (slice-literal hash) in
      let here : (n == n) ≡ true = ground arith in
      let long : params.hash_len ≡ length hash =
        sym (length-slice params.hash_buffer 0 params.hash_len) in
      let key : key_of filled n ≡ hash =
        ap
          (λ l.
            take l
              (if n == n then slice (literal hash) 0 (hash_value_length + 8) else s.nodes.hash n))
          (store_self s.nodes.hash_length n params.hash_len)
        ∙ subst
            (λ t.
              take params.hash_len
                (if t then slice (literal hash) 0 (hash_value_length + 8) else s.nodes.hash n)
              ≡ hash)
            (sym here) own_hash in
      is_node_lem filled params.ip port hash n (store_self s.nodes.ip n params.ip)
        (store_self s.nodes.port n port) (store_self s.nodes.hash_length n params.hash_len ∙ long)
        key

  added-IsMap : n ≢ null → IsMap trees added (n ∷ all)
  unfolding fill_node
  added-IsMap nn = record {
    listed = (refl, nn, chain);
    distinct = (new, ok.distinct);
    short = λ a h. elim (Bool-cases (a == n)) [
      | inl e ↦ rw e short
      | inr e ↦ rw e (ok.short a (rw e at h))
    ];
  }
    where
      links : Mem
      links = s.nodes.all_node_list_next

      chain : Chain (store links n (s.list i).all_list) (store links n (s.list i).all_list n) all
      chain = rw (store_self links n (s.list i).all_list) (
          Seg-Chain _ _ all (
            Seg-store links n (s.list i).all_list (s.list i).all_list all null new
              (Chain-Seg links (s.list i).all_list all ok.listed)))

  -- What a run adds: nothing where a node of the map has this address, port and hash, or there is no
  -- memory, and otherwise the new node, in front.
  abbrev pub AddsNode : Reply trees → Type 0
  AddsNode reply =
      ((p : ℕ) × (has p all ≡ true)
        × (is_node s.nodes params.ip port hash p ≡ true)
        × (reply ≡ done (s, some node_already_exist)))
      ⊎ ((n ≡ null) × (reply ≡ done (s, some no_memory)))
      ⊎ (((a : ℕ) → has a all ≡ true → is_node s.nodes params.ip port hash a ≡ false)
          × (reply ≡ done (put_map trees s i added, none))
          × IsMap trees added (n ∷ all)
          × (is_node filled params.ip port hash n ≡ true))

  add_translated-AddsNode :
      AddsNode (add_translated trees fuel machine n map_name ip_str port flags hash_string params s)
  unfolding add_translated
  add_translated-AddsNode =
      let (q, run, searched) =
        range_map_find_node-SearchedNode fuel s.nodes params.ip port hash all (s.list i).all_list
          ok.listed small in
      elim searched [
        | inr (nz, m, this) ↦
            let some_node : (q == null) ≡ false = ground arith in
            inl (q, m, this, rw (named, run, some_node, add_translated) refl)
        | inl (z, no_node) ↦ elim (Bool-cases (n == null)) [
          | inl e ↦ inr (inl (ground arith, rw (named, run, z, e, add_translated) refl))
          | inr e ↦ inr (
              inr (
                no_node,
                rw (named, run, z, e, add_translated) refl,
                added-IsMap (ground arith),
                filled-is_node,
              ))
        ]
      ]

module _ (trees : Trees) (s : Maps trees) (i : ℕ) (all : List ℕ) (fuel : ℕ)
    (ok : IsMap trees (at_map trees s i) all) (small : length all < fuel) (machine : Machine)
    (n : ℕ) (map_name : List ℕ) (ip_str : Mem) (port flags : ℕ) (hash_string : Mem)
    (named : range_map_find_by_name trees s map_name ≡ some i) (new : has n all ≡ false)
    (hash_buffer : Mem) where
  -- What a run on texts does: they are refused, and nothing changes, or it adds a node.
  abbrev pub AddsTexts : Reply trees → Type 0
  AddsTexts run =
      ((e : Message) × (translate_mkc_params ip_str hash_string hash_buffer ≡ done (inl e))
        × (run ≡ done (s, some e)))
      ⊎ ((params : Params) × (short : params.hash_len < hash_value_length) × (translate_mkc_params
              ip_str hash_string hash_buffer
            ≡ done (inr params))
          × AddsNode trees s i all fuel ok small machine n map_name ip_str port flags hash_string
              params named short new run)

  -- `range_map_add_node` for the name of a map, whose list holds `all`, always ends, on more fuel
  -- than the map has nodes, where the address from `malloc` is not one of them. Texts that are
  -- refused give their error, and nothing changes. If a node of the map has the address, port and
  -- hash of the texts, or `malloc` gives NULL, that is the error, and nothing changes. Otherwise
  -- the call succeeds: the map's list is the new node and the nodes that it held, all with hashes
  -- shorter than 32 bytes, and the new node has the address, port and hash.
  pub range_map_add_node-AddsTexts :
      AddsTexts (
        range_map_add_node trees fuel machine n hash_buffer map_name ip_str port flags hash_string
          s)
  unfolding range_map_add_node
  range_map_add_node-AddsTexts =
      let (r, run, accepted) = translate_mkc_params-Accepted ip_str hash_string hash_buffer in
      by_params r run accepted
    where
      by_params :
          (r : Message ⊎ Params)
          → translate_mkc_params ip_str hash_string hash_buffer ≡ done r
          → Accepted r
          → AddsTexts (
              range_map_add_node trees fuel machine n hash_buffer map_name ip_str port flags
                hash_string s)
      by_params (inl e) run accepted = inl (e, run, rw (run, range_map_add_node) refl)
      by_params (inr params) run accepted =
          let short : params.hash_len < hash_value_length = omega arith in
          let same : range_map_add_node trees fuel machine n hash_buffer map_name ip_str port flags
                hash_string s
              ≡ add_translated trees fuel machine n map_name ip_str port flags hash_string params
                  s =
            rw (run, range_map_add_node) refl in
          inr (
            params,
            short,
            run,
            subst
                (AddsNode trees s i all fuel ok small machine n map_name ip_str port flags
                  hash_string params named short new)
                (sym same)
                (add_translated-AddsNode trees s i all fuel ok small machine n map_name ip_str port
                  flags hash_string params named short new),
          )
