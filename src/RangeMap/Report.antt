-- ===== src/RangeMap/Report.antt =====
-- What the addresses that src/range-map.c reports are.
use esq.Base.{
  ℕ, zero, suc, ◌+◌, ◌<◌, ◌≤◌, ◌≡◌, refl, sym, ap, ◌∙◌, inl, inr, true, false, not, ◌&&◌, List, [],
  ◌∷◌, ◌++◌, append-nil, append_assoc, arith, ◌==◌, if◌then◌else◌, Bool-cases, leb, length,
  length-filter, done,
}
use esq.Chain.{null, has, Distinct, Chain}
use esq.Chain.Seg.{has-filter, has-head, length-Distinct}
use esq.RangeMap.RbTree.{Trees}
use esq.RangeMap.State.{rm_node_main, rm_node_delete, has_flag, Nodes}
use esq.RangeMap.{Loaded, find_in_map, clean_and_load}
use esq.RangeMap.Clean.{deleted, kept_nodes}
use esq.RangeMap.Refine.{IsMap}
use esq.RangeMap.Serving.{prefix_of, LongestFirst, clean_and_load-FindsPrefixes}
use esq.RangeMap.Addresses.{
  addresses, too_many, addresses_loop, MainAddress, main_address, nothing_found, no_main, main_loop,
  range_map_get_addresses, range_map_get_main_address,
}

abbrev pub addresses_of : Nodes → List ℕ → List ℕ
addresses_of ns [] = []
addresses_of ns (x ∷ xs) = ns.address x ∷ addresses_of ns xs

-- The address of the first main node of the list.
abbrev pub first_main : Nodes → List ℕ → MainAddress
first_main ns [] = no_main
first_main ns (x ∷ xs) =
    if has_flag (ns.flags x) rm_node_main then main_address (ns.address x) else first_main ns xs

-- What is reported of the nodes that are found.
abbrev pub main_of : Nodes → List ℕ → MainAddress
main_of ns [] = nothing_found
main_of ns (x ∷ xs) = first_main ns (x ∷ xs)

addresses_loop_lem :
    (fuel : ℕ) (ns : Nodes) (max_addresses n i : ℕ) (got xs : List ℕ)
    → Chain ns.next n xs
    → ((a : ℕ) → has a xs ≡ true → deleted ns a ≡ false)
    → length xs < fuel
    → i ≤ max_addresses
    → addresses_loop fuel ns max_addresses n i got
      ≡ done (
          if leb (i + length xs) max_addresses
          then addresses (got ++ addresses_of ns xs)
          else too_many)
unfolding addresses_loop
addresses_loop_lem zero ns max n i got xs c stay f b = absurd (omega arith)
addresses_loop_lem (suc fuel) ns max n i got [] c stay f b =
    let fits : leb (i + 0) max ≡ true = ground arith in rw (c, fits, append-nil) refl
addresses_loop_lem (suc fuel) ns max n i got (x ∷ xs) (e, nn, c) stay f b =
    let more : (x == null) ≡ false = ground arith in
    let stays : deleted ns x ≡ false = stay x (has-head x xs) in
    elim (Bool-cases (leb max i)) [
      | inl full ↦
          let over : leb (i + suc (length xs)) max ≡ false = ground arith in
          rw (e, more, full, over) refl
      | inr room ↦
          let shift : i + suc (length xs) ≡ i + 1 + length xs = omega arith in
          let ih =
            addresses_loop_lem fuel ns max (ns.next x) (i + 1) (got ++ ns.address x ∷ []) xs c
              (λ a h. stay a (ground (arith, h))) (omega arith) (ground arith) in
          let join : (got ++ ns.address x ∷ []) ++ addresses_of ns xs
              ≡ got ++ (ns.address x ∷ addresses_of ns xs) =
            append_assoc got (ns.address x ∷ []) (addresses_of ns xs) in
          rw (e, more, room, stays, more, shift, sym join) ih
    ]

main_loop_lem :
    (fuel : ℕ) (ns : Nodes) (n : ℕ) (xs : List ℕ)
    → Chain ns.next n xs
    → length xs < fuel
    → main_loop fuel ns n ≡ done (first_main ns xs)
unfolding main_loop
main_loop_lem zero ns n xs c f = absurd (omega arith)
main_loop_lem (suc fuel) ns n [] c f = rw c refl
main_loop_lem (suc fuel) ns n (x ∷ xs) (e, nn, c) f =
    let more : (x == null) ≡ false = ground arith in
    elim (Bool-cases (has_flag (ns.flags x) rm_node_main)) [
      | inl main ↦ rw (e, more, main) refl
      | inr no_flag ↦ rw (e, more, no_flag) (main_loop_lem fuel ns (ns.next x) xs c (omega arith))
    ]

module _ (ns ms : Nodes) (addrs : ms.address ≡ ns.address) where
  addresses_same : (xs : List ℕ) → addresses_of ms xs ≡ addresses_of ns xs
  addresses_same [] = refl
  addresses_same (x ∷ xs) = rw (ap (λ m. m x) addrs, addresses_same xs) refl

  module _ (flagged : ms.flags ≡ ns.flags) where
    first_main_same : (xs : List ℕ) → first_main ms xs ≡ first_main ns xs
    first_main_same [] = refl
    first_main_same (x ∷ xs) =
        rw (ap (λ m. m x) addrs, ap (λ m. m x) flagged, first_main_same xs) refl

    main_same : (xs : List ℕ) → main_of ms xs ≡ main_of ns xs
    main_same [] = refl
    main_same (x ∷ xs) = first_main_same (x ∷ xs)

module _ (trees : Trees) (s : Loaded trees) (hash xs : List ℕ)
    (c : Chain s.nodes.next (find_in_map trees s hash) xs) (fuel : ℕ)
    (small : length xs < fuel) where
  addresses_chain :
      (max_addresses : ℕ)
      → ((a : ℕ) → has a xs ≡ true → deleted s.nodes a ≡ false)
      → range_map_get_addresses trees fuel s hash max_addresses
        ≡ done (
            if leb (length xs) max_addresses then addresses (addresses_of s.nodes xs) else too_many)
  unfolding range_map_get_addresses
  addresses_chain max stay = by_list xs c refl
    where
      by_list :
          (ys : List ℕ)
          → Chain s.nodes.next (find_in_map trees s hash) ys
          → xs ≡ ys
          → range_map_get_addresses trees fuel s hash max
            ≡ done (if leb (length xs) max then addresses (addresses_of s.nodes xs) else too_many)
      by_list [] z same =
          let fits : leb 0 max ≡ true = ground arith in
          rw (z, same, fits, range_map_get_addresses) refl
      by_list (y ∷ ys) (e, nn, rest) same =
          let some_node : (find_in_map trees s hash == null) ≡ false = ground arith in
          let run =
            addresses_loop_lem fuel s.nodes max (find_in_map trees s hash) 0 [] xs c stay small
              (omega arith) in
          let zero_first : 0 + length xs ≡ length xs = omega arith in
          rw (some_node, range_map_get_addresses) (rw zero_first at run)

  main_chain : range_map_get_main_address trees fuel s hash ≡ done (main_of s.nodes xs)
  unfolding range_map_get_main_address
  main_chain = by_list xs c refl
    where
      by_list :
          (ys : List ℕ)
          → Chain s.nodes.next (find_in_map trees s hash) ys
          → xs ≡ ys
          → range_map_get_main_address trees fuel s hash ≡ done (main_of s.nodes xs)
      by_list [] z same = rw (z, same, range_map_get_main_address) refl
      by_list (y ∷ ys) (e, nn, rest) same =
          let some_node : (find_in_map trees s hash == null) ≡ false = ground arith in
          let run = main_loop_lem fuel s.nodes (find_in_map trees s hash) xs c small in
          rw (some_node, range_map_get_main_address, run)
            (ap (λ zs. done (first_main s.nodes zs)) refl ∙ rw same refl)

module _ (trees : Trees) where
  -- What is reported for every hash, where the nodes stand in `ns` and the map holds `all`.
  abbrev pub Reports : Nodes → List ℕ → ℕ → Loaded trees → Type 0
  Reports ns all fuel s =
      (hash : List ℕ)
      → (xs : List ℕ) × Distinct xs
        × LongestFirst ns xs
        × ((a : ℕ) → has a xs ≡ (has a all && prefix_of ns hash a))
        × ((max_addresses : ℕ)
            → range_map_get_addresses trees fuel s hash max_addresses
              ≡ done (
                  if leb (length xs) max_addresses
                  then addresses (addresses_of ns xs)
                  else too_many))
        × (range_map_get_main_address trees fuel s hash ≡ done (main_of ns xs))

  -- A map whose list holds `all` is cleaned and loaded, on more fuel than it has nodes. Then for
  -- every hash there is a list of different nodes, which are those of the map that were not marked
  -- for deletion and whose hash is a prefix, the longest hashes first. `range_map_get_addresses`
  -- returns their addresses, or -1 where they are more than asked for, and does not read through
  -- NULL. `range_map_get_main_address` gives the address of the first main node, or -1 where no
  -- node is main, but 0 without an address where the list is empty.
  pub clean_and_load-Reports :
      (s : Loaded trees) (all : List ℕ) (fuel : ℕ)
      → IsMap trees s all
      → length all < fuel
      → (s' : Loaded trees) × (clean_and_load trees fuel s ≡ done s')
        × Reports s.nodes (kept_nodes s.nodes all) fuel s'
  clean_and_load-Reports s all fuel ok small =
      let (s', run, (hl, h, ip, port, flags, address, bucket), ok', frees, finds) =
        clean_and_load-FindsPrefixes trees s all fuel ok small in
      (
        s',
        run,
        λ hash.
            let (xs, c, d, longest, members) = finds hash in
            let few = length-Distinct xs (kept_nodes s.nodes all) d (kept xs hash members) in
            let fits : length xs < fuel =
              omega (arith, small, few, length-filter (λ p. not (deleted s.nodes p)) all) in
            (
              xs,
              d,
              longest,
              members,
              λ max.
                  addresses_chain trees s' hash xs c fuel fits max (λ a m.
                    ap (λ f. has_flag (f a) rm_node_delete) flags ∙ stays xs hash members a m)
                  ∙ ap (λ ys. done (if leb (length xs) max then addresses ys else too_many))
                      (addresses_same s.nodes s'.nodes address xs),
              main_chain trees s' hash xs c fuel fits
                  ∙ ap done (main_same s.nodes s'.nodes address flags xs),
            ),
      )
    where
      kept :
          (xs hash : List ℕ)
          → ((a : ℕ) → has a xs ≡ (has a (kept_nodes s.nodes all) && prefix_of s.nodes hash a))
          → (a : ℕ) → has a xs ≡ true
          → has a (kept_nodes s.nodes all) ≡ true
      kept xs hash members a m = let both = sym (members a) ∙ m in ground (arith, both)

      stays :
          (xs hash : List ℕ)
          → ((a : ℕ) → has a xs ≡ (has a (kept_nodes s.nodes all) && prefix_of s.nodes hash a))
          → (a : ℕ) → has a xs ≡ true
          → deleted s.nodes a ≡ false
      stays xs hash members a m =
          let (here, no_mark) =
            has-filter (λ p. not (deleted s.nodes p)) a all (kept xs hash members a m) in
          ground (arith, no_mark)
