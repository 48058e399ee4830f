-- ===== src/RangeMap/Tests.antt =====
-- The range maps on a small map, with lists in place of the trees.
use esq.Base.{
  ℕ, ◌+◌, ◌≡◌, ◌⊎◌, refl, true, ◌&&◌, ◌||◌, some, List, [], ◌∷◌, arith, ◌==◌, if◌then◌else◌, Mem,
  literal, Run, done, out_of_fuel,
}
use esq.Chain.{null, has}
use esq.RangeMap.Listed.{listed}
use esq.RangeMap.State.{Nodes}
use esq.RangeMap.{RangeMap, Loaded, clean_and_load, find_in_map}
use esq.RangeMap.Refine.{IsMap, SameNodes}
use esq.RangeMap.Clean.{deleted, kept_nodes}
use esq.RangeMap.Serving.{FindsPrefixes, clean_and_load-FindsPrefixes}
use esq.RangeMap.Report.{Reports, clean_and_load-Reports}
use esq.RangeMap.Commands.{Machine, Maps, at_map, range_map_find_by_name}
use esq.RangeMap.Edit.{range_map_add_node, range_map_del_node}
use esq.RangeMap.Delete.{DeletesTexts, range_map_del_node-DeletesTexts}
use esq.RangeMap.Buckets.{
  range_map_find_by_name2, range_map_notify_bucket_online, range_map_notify_bucket_offline,
}
use esq.RangeMap.Connecting.{with_buckets}
use esq.RangeMap.Notify.{Addressed, Becomes, notify_online-offline}
use esq.RangeMap.Add.{AddsTexts, range_map_add_node-AddsTexts}

-- Three nodes: 1 for the hashes that begin with 10, 2 for 10 20, and 3, which is to go.
abbrev three_nodes : Nodes
three_nodes = record {
  hash_length = λ p. if p == 2 then 2 else 1;
  hash = λ p. if p == 2 then 10 ∷ 20 ∷ [] else 10 ∷ [];
  ip = λ p. p;
  port = λ p. 80;
  flags = λ p. if p == 3 then 2 else 1;
  next = λ p. 0;
  all_node_list_next = λ p. if p == 1 then 2 else if p == 2 then 3 else 0;
  address = λ p. 100 + p;
  bucket = λ p. 0;
  freed = [];
}

abbrev one_map : ℕ → RangeMap listed
one_map i = record {
  name = if i == 0 then b'm' ∷ [] else [];
  rb_by_length = λ l. [];
  all_list = if i == 0 then 1 else 0;
  longest = 0;
}

abbrev maps : Maps listed
maps = record { nodes = three_nodes; list = one_map }

maps-IsMap : IsMap listed (at_map listed maps 0) (1 ∷ 2 ∷ 3 ∷ [])
maps-IsMap = record {
  listed = (refl, omega arith, (refl, omega arith, (refl, omega arith, refl)));
  distinct = (refl, (refl, (refl, tt)));
  short = λ a h. ground arith;
}

abbrev map_nodes : List ℕ
map_nodes = 1 ∷ 2 ∷ 3 ∷ []

clean_and_load-FindsPrefixes_example :
    (t : Loaded listed) × (clean_and_load listed 4 (at_map listed maps 0) ≡ done t)
    × SameNodes three_nodes t.nodes
    × IsMap listed t (kept_nodes three_nodes map_nodes)
    × ((a : ℕ) → has a t.nodes.freed ≡ ((has a map_nodes && deleted three_nodes a) || has a []))
    × FindsPrefixes listed three_nodes (kept_nodes three_nodes map_nodes) t
clean_and_load-FindsPrefixes_example =
    clean_and_load-FindsPrefixes listed (at_map listed maps 0) map_nodes 4 maps-IsMap (omega arith)

clean_and_load-Reports_example :
    (t : Loaded listed) × (clean_and_load listed 4 (at_map listed maps 0) ≡ done t)
    × Reports listed three_nodes (kept_nodes three_nodes map_nodes) 4 t
clean_and_load-Reports_example =
    clean_and_load-Reports listed (at_map listed maps 0) map_nodes 4 maps-IsMap (omega arith)

abbrev ip_text : Mem
ip_text = literal (b'0' ∷ b'.' ∷ b'0' ∷ b'.' ∷ b'0' ∷ b'.' ∷ b'2' ∷ [])

abbrev hash_text : Mem
hash_text = literal (b'0' ∷ b'a' ∷ b'1' ∷ b'4' ∷ b'x' ∷ [])

abbrev map_text : List ℕ
map_text = b'm' ∷ []

maps-named : range_map_find_by_name listed maps map_text ≡ some 0
unfolding range_map_find_by_name
maps-named = refl

range_map_del_node-DeletesTexts_example :
    DeletesTexts listed maps 0 map_nodes 4 maps-IsMap
      (omega arith)
      (λ i. 0)
      ip_text
      80
      hash_text
      (range_map_del_node listed 4 (λ i. 0) map_text ip_text 80 hash_text maps)
range_map_del_node-DeletesTexts_example =
    range_map_del_node-DeletesTexts listed maps 0 map_nodes 4 maps-IsMap (omega arith) (λ i. 0)
      map_text ip_text 80 hash_text maps-named

-- A machine with the address 5.
abbrev machine_five : Machine
machine_five = record {
  os_ip_address_is_me = λ a. a == 5;
  bee_server_is_my_port = λ p. p == 80;
  esq_bee_find_bucket = λ name text ip port. if port == 80 then 7 else 0;
  socket_address = λ text port. port;
}

range_map_add_node-AddsTexts_example :
    AddsTexts listed maps 0 map_nodes 4 maps-IsMap
      (omega arith)
      machine_five
      9
      map_text
      ip_text
      90
      1
      hash_text
      maps-named
      refl
      (λ i. 0)
      (range_map_add_node listed 4 machine_five 9 (λ i. 0) map_text ip_text 90 1 hash_text maps)
range_map_add_node-AddsTexts_example =
    range_map_add_node-AddsTexts listed maps 0 map_nodes 4 maps-IsMap (omega arith) machine_five 9
      map_text ip_text 90 1 hash_text maps-named refl (λ i. 0)

maps-named2 : range_map_find_by_name2 listed maps map_text ≡ some 0
unfolding range_map_find_by_name2
maps-named2 = refl

notify_online-offline_example :
    (online offline : Mem) × (range_map_notify_bucket_online listed 4 7 2 80
        (10 ∷ 20 ∷ [])
        map_text
        maps
      ≡ done (record maps { nodes = with_buckets three_nodes online }))
    × (range_map_notify_bucket_offline listed 4 7 map_text
          (record maps { nodes = with_buckets three_nodes online })
        ≡ done (record maps { nodes = with_buckets three_nodes offline }))
    × ((a : ℕ)
        → Becomes
            ((has a map_nodes ≡ true) × Addressed three_nodes 2 80 (10 ∷ 20 ∷ []) a)
            7
            0
            (online a))
    × ((a : ℕ)
        → Becomes
            ((has a map_nodes ≡ true)
              × (Addressed three_nodes 2 80 (10 ∷ 20 ∷ []) a ⊎ ◌≡◌ {A = ℕ} 0 7))
            null
            0
            (offline a))
notify_online-offline_example =
    notify_online-offline listed maps 0 map_nodes 4 maps-IsMap (omega arith) 7 2 80 (10 ∷ 20 ∷ [])
      map_text maps-named2

abbrev search_in : Run (Loaded listed) → List ℕ → ℕ × ℕ × ℕ
search_in (done t) hash = (find_in_map listed t hash, t.nodes.next 2, t.nodes.next 1)
search_in out_of_fuel hash = (0, 0, 0)

-- A search after the load: 10 20 30 finds node 2, then node 1.
find_in_map_example :
    search_in (clean_and_load listed 4 (at_map listed maps 0)) (10 ∷ 20 ∷ 30 ∷ []) ≡ (2, 1, 0)
unfolding find_in_map clean_and_load
find_in_map_example = refl
