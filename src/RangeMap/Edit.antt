-- ===== src/RangeMap/Edit.antt =====
-- The functions of src/range-map.c that add, delete and report the nodes of the maps.
use esq.Base.{
  ℕ, zero, suc, ◌+◌, not, ◌&&◌, inl, inr, Option, none, some, List, ◌==◌, if◌then◌else◌, Mem, store,
  slice, literal, strnlen, Run, done, out_of_fuel, ◌>>=◌,
}
use esq.Chain.{null}
use esq.RangeMap.RbTree.{Trees}
use esq.RangeMap.State.{hash_value_length, rm_node_delete, rm_node_me, set_flag, Nodes}
use esq.RangeMap.{clean_and_load}
use esq.RangeMap.Commands.{
  Message, map_not_exist, map_not_found, node_already_exist, node_not_exist, no_memory, Params,
  translate_mkc_params, range_map_find_node, Machine, Maps, at_map, put_map, range_map_find_by_name,
}

-- `p->flags |= RM_NODE_DELETE`
abbrev pub mark_deleted : Nodes → ℕ → Nodes
mark_deleted ns p = record ns { flags = store ns.flags p (set_flag (ns.flags p) rm_node_delete) }

-- The loop of `range_map_del_all_node` from the node `p`.
unfoldable pub mark_loop : ℕ → Nodes → ℕ → Run Nodes
unfolding store
mark_loop zero ns p = out_of_fuel
mark_loop (suc fuel) ns p =
    let rest = mark_loop fuel (mark_deleted ns p) (ns.all_node_list_next p) in
    if p == null then done ns else rest

-- The node that `range_map_add_node` fills in at `n`, where a map has the list `all_list`.
unfoldable pub fill_node : Machine → ℕ → List ℕ → Mem → Mem → ℕ → ℕ → Params → ℕ → Nodes → Nodes
unfolding store strnlen
fill_node machine n map_name ip_str hash_string port flags params all_list ns =
    let address = machine.socket_address (slice ip_str 0 (strnlen ip_str 20)) port in
    let text = slice hash_string 0 (params.hash_str_len + 1) in
    let me = machine.os_ip_address_is_me address && machine.bee_server_is_my_port port in
    record ns {
      hash_length = store ns.hash_length n params.hash_len;
      hash = λ q.
          if q == n
          then slice (literal (slice params.hash_buffer 0 params.hash_len)) 0
              (hash_value_length + 8)
          else ns.hash q;
      ip = store ns.ip n params.ip;
      port = store ns.port n port;
      flags = store ns.flags n (if me then set_flag flags rm_node_me else flags);
      next = store ns.next n null;
      all_node_list_next = store ns.all_node_list_next n all_list;
      address = store ns.address n address;
      bucket = store ns.bucket n (
          if me
          then machine.esq_bee_find_bucket map_name text 0 0
          else machine.esq_bee_find_bucket map_name text params.ip port);
    }

module _ (trees : Trees) where
  abbrev pub Reply : Type 0
  Reply = Run (Maps trees × Option Message)

  -- `range_map_add_node` behind TRANSLATE_MKC_PARAMS; `n` is what `malloc` returns.
  unfoldable pub add_translated :
      ℕ → Machine → ℕ → List ℕ → Mem → ℕ → ℕ → Mem → Params → Maps trees → Reply
  unfolding range_map_find_by_name range_map_find_node fill_node
  add_translated fuel machine n map_name ip_str port flags hash_string params s =
      elim (range_map_find_by_name trees s map_name) [
        | none ↦ done (s, some map_not_exist)
        | some i ↦
            let map = s.list i in
            range_map_find_node fuel s.nodes params.ip port
              (slice params.hash_buffer 0 params.hash_len) map.all_list
            >>= λ p.
                (if not (p == null)
                  then done (s, some node_already_exist)
                  else if n == null
                  then done (s, some no_memory)
                  else done (
                    put_map trees s i (record {
                      nodes =
                          fill_node machine n map_name ip_str hash_string port flags params
                            map.all_list s.nodes;
                      map = record map { all_list = n };
                    }),
                    none,
                  ))
      ]

  unfoldable pub range_map_add_node :
      ℕ → Machine → ℕ → Mem → List ℕ → Mem → ℕ → ℕ → Mem → Maps trees → Reply
  unfolding translate_mkc_params add_translated
  range_map_add_node fuel machine n hash_buffer map_name ip_str port flags hash_string s =
      translate_mkc_params ip_str hash_string hash_buffer >>= λ t. elim t [
        | inl e ↦ done (s, some e)
        | inr params ↦ add_translated fuel machine n map_name ip_str port flags hash_string params s
      ]

  -- `range_map_clean` and `range_map_load` on the map at `i`, at the end of a function.
  unfoldable pub reload : ℕ → Maps trees → ℕ → Reply
  unfolding clean_and_load
  reload fuel s i =
      clean_and_load trees fuel (at_map trees s i) >>= λ t. done (put_map trees s i t, none)

  unfoldable pub range_map_flush : ℕ → List ℕ → Maps trees → Reply
  unfolding range_map_find_by_name reload
  range_map_flush fuel name s = elim (range_map_find_by_name trees s name) [
    | none ↦ done (s, some map_not_found)
    | some i ↦ reload fuel s i
  ]

  unfoldable pub del_translated : ℕ → List ℕ → ℕ → Params → Maps trees → Reply
  unfolding range_map_find_by_name range_map_find_node reload store
  del_translated fuel map_name port params s = elim (range_map_find_by_name trees s map_name) [
    | none ↦ done (s, some map_not_exist)
    | some i ↦
        let map = s.list i in
        range_map_find_node fuel s.nodes params.ip port (slice params.hash_buffer 0 params.hash_len)
          map.all_list
        >>= λ p.
            (if p == null
              then done (s, some node_not_exist)
              else reload fuel (record s { nodes = mark_deleted s.nodes p }) i)
  ]

  unfoldable pub range_map_del_node : ℕ → Mem → List ℕ → Mem → ℕ → Mem → Maps trees → Reply
  unfolding translate_mkc_params del_translated
  range_map_del_node fuel hash_buffer map_name ip_str port hash_string s =
      translate_mkc_params ip_str hash_string hash_buffer >>= λ t. elim t [
        | inl e ↦ done (s, some e)
        | inr params ↦ del_translated fuel map_name port params s
      ]

  unfoldable pub range_map_del_all_node : ℕ → List ℕ → Maps trees → Reply
  unfolding range_map_find_by_name mark_loop reload
  range_map_del_all_node fuel map_name s = elim (range_map_find_by_name trees s map_name) [
    | none ↦ done (s, some map_not_exist)
    | some i ↦
        let map = s.list i in
        mark_loop fuel s.nodes map.all_list >>= λ ns. reload fuel (record s { nodes = ns }) i
  ]
