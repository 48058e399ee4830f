-- ===== src/RangeMap/Delete.antt =====
-- `range_map_del_node` and `range_map_del_all_node`.
use esq.Base.{
  ℕ, ◌<◌, ◌≡◌, ◌⊎◌, refl, sym, ap, subst, ◌∙◌, inl, inr, Bool, true, false, not, ◌&&◌, ◌||◌, none,
  some, List, arith, ◌==◌, length, filter, Mem, slice, done,
}
use esq.Chain.{null, has}
use esq.RangeMap.RbTree.{Trees}
use esq.RangeMap.{Loaded}
use esq.RangeMap.Clean.{deleted}
use esq.RangeMap.Refine.{IsMap}
use esq.RangeMap.Serving.{FindsPrefixes}
use esq.RangeMap.Commands.{
  Message, node_not_exist, Params, translate_mkc_params, is_node, Maps, at_map, put_map,
  range_map_find_by_name,
}
use esq.RangeMap.Edit.{Reply, mark_deleted, reload, del_translated, range_map_del_node}
use esq.RangeMap.Translate.{translate_mkc_params-Accepted}
use esq.RangeMap.Edited.{
  range_map_find_node-SearchedNode, reload-FindsPrefixes, kept_others, marked-IsMap,
  deleted-mark_deleted,
}

module _ (trees : Trees) (s : Maps trees) (i : ℕ) (all : List ℕ) (fuel : ℕ)
    (ok : IsMap trees (at_map trees s i) all) (small : length all < fuel) where
  -- The map is made anew without the nodes that are `gone`, which are freed.
  abbrev pub Without : (ℕ → Bool) → Loaded trees → Type 0
  Without gone t =
      IsMap trees t (filter (λ a. not (gone a)) all)
      × ((a : ℕ) → has a t.nodes.freed ≡ ((has a all && gone a) || has a s.nodes.freed))
      × FindsPrefixes trees s.nodes (filter (λ a. not (gone a)) all) t

  -- The end of `range_map_del_node` where the node is `p`.
  del_found :
      (p : ℕ)
      → (t : Loaded trees) × (reload trees fuel (record s { nodes = mark_deleted s.nodes p }) i
          ≡ done (put_map trees s i t, none))
        × Without (λ a. a == p || deleted s.nodes a) t
  del_found p =
      let marked : Maps trees = record s { nodes = mark_deleted s.nodes p } in
      let (t, run, same, ok', frees, finds) =
        reload-FindsPrefixes trees marked i all fuel (marked-IsMap trees s i all fuel ok small p)
          small in
      (
        t,
        run,
        (
          subst (IsMap trees t) (kept_others trees s i all fuel ok small p) ok',
          λ a.
              frees a
              ∙ ap (λ d. (has a all && d) || has a s.nodes.freed)
                  (deleted-mark_deleted s.nodes p a),
          subst (λ xs. FindsPrefixes trees s.nodes xs t) (kept_others trees s i all fuel ok small p)
              finds,
        ),
      )

  -- What a run deletes: nothing where no node of the map has this address, port and hash; otherwise
  -- one such node `p`, and the nodes that were marked before.
  abbrev pub DeletesNode : ℕ → Params → Reply trees → Type 0
  DeletesNode port params run =
      (((a : ℕ)
          → has a all ≡ true
          → is_node s.nodes params.ip port (slice params.hash_buffer 0 params.hash_len) a ≡ false)
        × (run ≡ done (s, some node_not_exist)))
      ⊎ ((p : ℕ) × (has p all ≡ true)
          × (is_node s.nodes params.ip port (slice params.hash_buffer 0 params.hash_len) p ≡ true)
          × (t : Loaded trees) × (run ≡ done (put_map trees s i t, none))
          × Without (λ a. a == p || deleted s.nodes a) t)

  del_translated-DeletesNode :
      (map_name : List ℕ) (port : ℕ) (params : Params)
      → range_map_find_by_name trees s map_name ≡ some i
      → DeletesNode port params (del_translated trees fuel map_name port params s)
  unfolding del_translated
  del_translated-DeletesNode map_name port params named =
      let (q, run, searched) =
        range_map_find_node-SearchedNode fuel s.nodes params.ip port
          (slice params.hash_buffer 0 params.hash_len) all (s.list i).all_list ok.listed small in
      elim searched [
        | inl (z, no_node) ↦ inl (no_node, rw (named, run, z, del_translated) refl)
        | inr (nz, m, this) ↦
            let some_node : (q == null) ≡ false = ground arith in
            let (t, reloads, without) = del_found q in
            inr (q, m, this, t, rw (named, run, some_node, del_translated) reloads, without)
      ]

  -- What a run on texts does: they are refused, and nothing changes, or it deletes a node.
  abbrev pub DeletesTexts : Mem → Mem → ℕ → Mem → Reply trees → Type 0
  DeletesTexts hash_buffer ip_str port hash_string run =
      ((e : Message) × (translate_mkc_params ip_str hash_string hash_buffer ≡ done (inl e))
        × (run ≡ done (s, some e)))
      ⊎ ((params : Params) × (translate_mkc_params ip_str hash_string hash_buffer
            ≡ done (inr params))
          × DeletesNode port params run)

  -- `range_map_del_node` for the name of a map, whose list holds `all`, always ends, on more fuel
  -- than the map has nodes. Texts that are refused give their error, and nothing changes. If no
  -- node of the map has the address, port and hash of the texts, that is the error, and nothing
  -- changes. Otherwise the call succeeds: one such node `p` of the map, and those that were marked
  -- before, have left the map and are freed, and for every hash a search leads through the
  -- remaining nodes whose hash is a prefix, the longest hashes first.
  pub range_map_del_node-DeletesTexts :
      (hash_buffer : Mem) (map_name : List ℕ) (ip_str : Mem) (port : ℕ) (hash_string : Mem)
      → range_map_find_by_name trees s map_name ≡ some i
      → DeletesTexts hash_buffer ip_str port hash_string
          (range_map_del_node trees fuel hash_buffer map_name ip_str port hash_string s)
  unfolding range_map_del_node
  range_map_del_node-DeletesTexts hash_buffer map_name ip_str port hash_string named =
      let (r, run, accepted) = translate_mkc_params-Accepted ip_str hash_string hash_buffer in
      by_params r run
    where
      by_params :
          (r : Message ⊎ Params)
          → translate_mkc_params ip_str hash_string hash_buffer ≡ done r
          → DeletesTexts hash_buffer ip_str port hash_string
              (range_map_del_node trees fuel hash_buffer map_name ip_str port hash_string s)
      by_params (inl e) run = inl (e, run, rw (run, range_map_del_node) refl)
      by_params (inr params) run =
          let same : range_map_del_node trees fuel hash_buffer map_name ip_str port hash_string s
              ≡ del_translated trees fuel map_name port params s =
            rw (run, range_map_del_node) refl in
          inr (
            params,
            run,
            subst (DeletesNode port params) (sym same)
                (del_translated-DeletesNode map_name port params named),
          )
