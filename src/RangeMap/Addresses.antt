-- ===== src/RangeMap/Addresses.antt =====
-- The functions of src/range-map.c that read addresses through the nodes of a search.
use esq.Base.{
  ℕ, zero, suc, ◌+◌, List, [], ◌∷◌, ◌++◌, ◌==◌, if◌then◌else◌, leb, Run, done, out_of_fuel,
}
use esq.Chain.{null}
use esq.RangeMap.RbTree.{Trees}
use esq.RangeMap.State.{rm_node_main, rm_node_delete, has_flag, Nodes}
use esq.RangeMap.{Loaded, find_in_map}

-- What `range_map_get_addresses` writes and counts; -1; or it reads through NULL.
pub data Addresses : Type 0 where
  addresses : List ℕ → Addresses
  too_many : Addresses
  read_through_null : Addresses

-- Its loop at `n`, with the addresses that are written.
unfoldable pub addresses_loop : ℕ → Nodes → ℕ → ℕ → ℕ → List ℕ → Run Addresses
addresses_loop zero ns max_addresses n i got = out_of_fuel
addresses_loop (suc fuel) ns max_addresses n i got =
    let m = if has_flag (ns.flags n) rm_node_delete then ns.next n else n in
    let rest =
      addresses_loop fuel ns max_addresses (ns.next m) (i + 1) (got ++ ns.address m ∷ []) in
    if n == null
    then done (addresses got)
    else if leb max_addresses i
    then done too_many
    else if m == null
    then done read_through_null
    else rest

-- What `range_map_get_main_address` does: it writes an address and returns 0, returns 0 and writes
-- nothing, or returns -1.
pub data MainAddress : Type 0 where
  main_address : ℕ → MainAddress
  nothing_found : MainAddress
  no_main : MainAddress

-- Its loop at `n`.
unfoldable pub main_loop : ℕ → Nodes → ℕ → Run MainAddress
main_loop zero ns n = out_of_fuel
main_loop (suc fuel) ns n =
    let rest = main_loop fuel ns (ns.next n) in
    if n == null
    then done no_main
    else if has_flag (ns.flags n) rm_node_main
    then done (main_address (ns.address n))
    else rest

module _ (trees : Trees) where
  -- On the map that `range_map_find_and_lock` finds.
  unfoldable pub range_map_get_addresses : ℕ → Loaded trees → List ℕ → ℕ → Run Addresses
  unfolding find_in_map addresses_loop
  range_map_get_addresses fuel s hash max_addresses =
      let n = find_in_map trees s hash in
      if n == null then done (addresses []) else addresses_loop fuel s.nodes max_addresses n 0 []

  unfoldable pub range_map_get_main_address : ℕ → Loaded trees → List ℕ → Run MainAddress
  unfolding find_in_map main_loop
  range_map_get_main_address fuel s hash =
      let n = find_in_map trees s hash in
      if n == null then done nothing_found else main_loop fuel s.nodes n
