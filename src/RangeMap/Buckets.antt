-- ===== src/RangeMap/Buckets.antt =====
-- The connections of the nodes to the buckets of this and other machines in src/range-map.c.
use esq.Base.{
  ℕ, zero, suc, ◌+◌, Bool, not, ◌&&◌, Option, none, some, List, [], ◌==◌, if◌then◌else◌, length,
  get_or, store, slice, literal, Run, done, out_of_fuel, ◌>>=◌,
}
use esq.Chain.{null}
use esq.RangeMap.RbTree.{Trees}
use esq.RangeMap.State.{rm_node_me, has_flag, set_flag, clear_flag, same_bytes, Nodes, key_of}
use esq.RangeMap.{RangeMap}
use esq.RangeMap.Commands.{range_map_max, Machine, Maps}

-- The bucket of a node is set.
abbrev pub put_bucket : Nodes → ℕ → ℕ → Nodes
put_bucket ns p b = record ns { bucket = store ns.bucket p b }

-- The tests of the two loops in `range_map_notify_bucket_online`, for nodes elsewhere and here.
abbrev pub remote_node : Nodes → ℕ → ℕ → List ℕ → ℕ → Bool
remote_node ns ip port hash_str p =
    not (has_flag (ns.flags p) rm_node_me)
    && (ns.ip p == ip
        && (ns.port p == port
            && (ns.hash_length p == length hash_str && same_bytes (key_of ns p) hash_str)))

abbrev pub self_node : Nodes → List ℕ → ℕ → Bool
self_node ns hash_str p =
    has_flag (ns.flags p) rm_node_me
    && (ns.hash_length p == length hash_str && same_bytes (key_of ns p) hash_str)

-- Both loops, from the node `p`.
unfoldable pub online_loop : ℕ → ℕ → ℕ → ℕ → List ℕ → Nodes → ℕ → Run Nodes
unfolding store
online_loop zero bucket ip port hash_str ns p = out_of_fuel
online_loop (suc fuel) bucket ip port hash_str ns p =
    let mine =
      if ip == 0 && port == 0 then self_node ns hash_str p else remote_node ns ip port hash_str p in
    let rest =
      online_loop fuel bucket ip port hash_str (if mine then put_bucket ns p bucket else ns)
        (ns.all_node_list_next p) in
    if p == null then done ns else rest

-- The loop of `range_map_notify_bucket_offline` from the node `p`.
unfoldable pub offline_loop : ℕ → ℕ → Nodes → ℕ → Run Nodes
unfolding store
offline_loop zero bucket ns p = out_of_fuel
offline_loop (suc fuel) bucket ns p =
    let rest =
      offline_loop fuel bucket (if ns.bucket p == bucket then put_bucket ns p null else ns)
        (ns.all_node_list_next p) in
    if p == null then done ns else rest

-- One node in `esq_range_map_flush_range_node_bucket_connection`.
unfoldable pub connect : Machine → List ℕ → Nodes → ℕ → Nodes
unfolding store
connect machine map_name ns p =
    if machine.os_ip_address_is_me (ns.address p) && machine.bee_server_is_my_port (ns.port p)
    then record ns {
      flags = store ns.flags p (set_flag (ns.flags p) rm_node_me);
      bucket = store ns.bucket p (machine.esq_bee_find_bucket map_name (key_of ns p) 0 0);
    }
    else record ns {
      flags = store ns.flags p (clear_flag (ns.flags p) rm_node_me);
      bucket =
          store ns.bucket p
            (machine.esq_bee_find_bucket map_name (key_of ns p) (ns.ip p) (ns.port p));
    }

-- Its inner loop from the node `p`.
unfoldable pub connect_loop : ℕ → Machine → List ℕ → Nodes → ℕ → Run Nodes
unfolding connect
connect_loop zero machine map_name ns p = out_of_fuel
connect_loop (suc fuel) machine map_name ns p =
    let rest =
      connect_loop fuel machine map_name (connect machine map_name ns p)
        (ns.all_node_list_next p) in
    if p == null then done ns else rest

module _ (trees : Trees) where
  -- The loop of `range_map_find_by_name2` over the `n` maps from `i` on.
  unfoldable pub find_name2_loop : (ℕ → RangeMap trees) → List ℕ → ℕ → ℕ → Option ℕ
  find_name2_loop list name zero i = none
  find_name2_loop list name (suc n) i =
      let rest = find_name2_loop list name n (i + 1) in
      if not (same_bytes (slice (literal (list i).name) 0 (length name)) name)
      then rest
      else if not (get_or (list i).name (length name) 0 == 0)
      then rest
      else some i

  -- On the bytes of the name.
  unfoldable pub range_map_find_by_name2 : Maps trees → List ℕ → Option ℕ
  unfolding find_name2_loop
  range_map_find_by_name2 s name = find_name2_loop s.list name range_map_max 0

  -- For a bucket with this address and hash string.
  unfoldable pub range_map_notify_bucket_online :
      ℕ → ℕ → ℕ → ℕ → List ℕ → List ℕ → Maps trees → Run (Maps trees)
  unfolding range_map_find_by_name2 online_loop
  range_map_notify_bucket_online fuel bucket ip port hash_str range_map_name s =
      elim (range_map_find_by_name2 s range_map_name) [
        | none ↦ done s
        | some i ↦ online_loop fuel bucket ip port hash_str s.nodes (s.list i).all_list >>= λ ns.
            done (record s { nodes = ns })
      ]

  unfoldable pub range_map_notify_bucket_offline : ℕ → ℕ → List ℕ → Maps trees → Run (Maps trees)
  unfolding range_map_find_by_name2 offline_loop
  range_map_notify_bucket_offline fuel bucket range_map_name s =
      elim (range_map_find_by_name2 s range_map_name) [
        | none ↦ done s
        | some i ↦ offline_loop fuel bucket s.nodes (s.list i).all_list >>= λ ns.
            done (record s { nodes = ns })
      ]

  -- The outer loop over the `n` maps from `i` on.
  unfoldable pub connect_maps : ℕ → Machine → (ℕ → RangeMap trees) → ℕ → ℕ → Nodes → Run Nodes
  unfolding connect_loop
  connect_maps fuel machine list zero i ns = done ns
  connect_maps fuel machine list (suc n) i ns =
      let skip = connect_maps fuel machine list n (i + 1) ns in
      let go = connect_loop fuel machine (list i).name ns (list i).all_list >>= λ k.
      connect_maps fuel machine list n (i + 1) k in
      if same_bytes (list i).name [] then skip else go

  unfoldable pub esq_range_map_flush_range_node_bucket_connection :
      ℕ → Machine → Maps trees → Run (Maps trees)
  unfolding connect_maps
  esq_range_map_flush_range_node_bucket_connection fuel machine s =
      connect_maps fuel machine s.list range_map_max 0 s.nodes >>= λ ns.
      done (record s { nodes = ns })
