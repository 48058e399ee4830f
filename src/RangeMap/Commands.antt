-- ===== src/RangeMap/Commands.antt =====
-- The functions of src/range-map.c that change the list of the range maps. The lock around each of
-- them is left out: a function runs from the lock to the unlock in one step.
use esq.Base.{
  ℕ, zero, suc, ◌+◌, ◌/◌, ◌*◌, Bool, not, ◌&&◌, ◌||◌, ◌⊎◌, inl, inr, Option, none, some, List, [],
  ◌∷◌, ◌==◌, if◌then◌else◌, ltb, leb, length, within, Mem, slice, strnlen, Run, done, out_of_fuel,
  ◌>>=◌,
}
use esq.Chain.{null}
use esq.Scan.Ipv4.{get_ipv4_addr}
use esq.Scan.HashString.{get_hash_string, hash_str_2_bin}
use esq.RangeMap.RbTree.{Trees}
use esq.RangeMap.State.{hash_value_length, same_bytes, Nodes, key_of}
use esq.RangeMap.{RangeMap, Loaded}

abbrev pub range_map_max : ℕ
range_map_max = 10

abbrev pub range_map_name_max : ℕ
range_map_name_max = 32

-- The errors that the functions return as text; NULL is `none`.
pub data Message : Type 0 where
  name_invalid : Message
  name_too_long : Message
  lower_case_allowed : Message
  map_already_exist : Message
  too_many_maps : Message
  invalid_ip_length : Message
  invalid_ip : Message
  invalid_hash_parameter_length : Message
  invalid_hash : Message
  invalid_hash_length : Message
  failed_to_transform : Message
  map_not_exist : Message
  map_not_found : Message
  node_already_exist : Message
  no_memory : Message
  node_not_exist : Message

-- The loop of `range_map_name_check2`.
unfoldable pub name_loop : List ℕ → Option Message
name_loop [] = none
name_loop (c ∷ name) =
    let rest = name_loop name in
    if within b'a' b'z' c
    then rest
    else if within b'0' b'9' c
    then rest
    else some lower_case_allowed

-- On the `l` bytes of the name.
unfoldable pub range_map_name_check2 : List ℕ → Option Message
unfolding name_loop
range_map_name_check2 name =
    if length name == 0
    then some name_invalid
    else if leb range_map_name_max (length name)
    then some name_too_long
    else name_loop name

unfoldable pub range_map_name_check : Mem → Option Message
unfolding strnlen range_map_name_check2
range_map_name_check name =
    range_map_name_check2 (slice name 0 (strnlen name (range_map_name_max + 2)))

-- What TRANSLATE_MKC_PARAMS makes of the parameters.
pub record Params : Type 0 where
  pub ip : ℕ
  pub hash_str_len : ℕ
  pub hash_len : ℕ
  pub hash_buffer : Mem

-- The part for the hash; `hash_buffer` is what stands on the stack before.
unfoldable pub translate_hash : ℕ → Mem → Mem → Run (Message ⊎ Params)
unfolding strnlen get_hash_string hash_str_2_bin
translate_hash ip hash_string hash_buffer =
    let l = strnlen hash_string (hash_value_length + 3) in
    if ltb l 1 || ltb (hash_value_length + 1) l
    then done (inl invalid_hash_parameter_length)
    else elim (get_hash_string (slice hash_string 0 l)) [
      | none ↦ done (inl invalid_hash)
      | some (r, hash_start, hash_str_len) ↦
          if not (hash_start == 0)
            || not (hash_str_len + 1 == l)
            || ltb (hash_value_length * 2) hash_str_len
          then done (inl invalid_hash_length)
          else elim (hash_str_2_bin hash_buffer (λ i. hash_string (hash_start + i)) hash_str_len) [
            | none ↦ done (inl failed_to_transform)
            | some run ↦ run >>= λ b. done (
                inr (record {
                  ip = ip;
                  hash_str_len = hash_str_len;
                  hash_len = hash_str_len / 2;
                  hash_buffer = b;
                }))
          ]
    ]

-- TRANSLATE_MKC_PARAMS
unfoldable pub translate_mkc_params : Mem → Mem → Mem → Run (Message ⊎ Params)
unfolding strnlen get_ipv4_addr translate_hash
translate_mkc_params ip_str hash_string hash_buffer =
    let l = strnlen ip_str 20 in
    if ltb l 7 || ltb 15 l
    then done (inl invalid_ip_length)
    else elim (get_ipv4_addr (slice ip_str 0 l)) [
      | none ↦ done (inl invalid_ip)
      | some (r, ip) ↦ translate_hash ip hash_string hash_buffer
    ]

-- The test of a node in `range_map_find_node`.
abbrev pub is_node : Nodes → ℕ → ℕ → List ℕ → ℕ → Bool
is_node ns ip port hash p =
    ns.ip p == ip
    && (ns.port p == port && (ns.hash_length p == length hash && same_bytes (key_of ns p) hash))

-- Its loop, from the node `p`.
unfoldable pub range_map_find_node : ℕ → Nodes → ℕ → ℕ → List ℕ → ℕ → Run ℕ
range_map_find_node zero ns ip port hash p = out_of_fuel
range_map_find_node (suc fuel) ns ip port hash p =
    let rest = range_map_find_node fuel ns ip port hash (ns.all_node_list_next p) in
    if p == null then done null else if is_node ns ip port hash p then done p else rest

-- What the functions ask of the operating system and of the buckets: whether an address or a port
-- is one of this machine, the bucket of a map and a hash at an address, and the address structure.
pub record Machine : Type 0 where
  pub os_ip_address_is_me : ℕ → Bool
  pub bee_server_is_my_port : ℕ → Bool
  pub esq_bee_find_bucket : List ℕ → List ℕ → ℕ → ℕ → ℕ
  pub socket_address : List ℕ → ℕ → ℕ

module _ (trees : Trees) where
  open trees use {Tree, init}

  -- `range_map_list`, and the nodes of all maps. A name is the list of its bytes.
  pub record Maps : Type 0 where
    pub nodes : Nodes
    pub list : ℕ → RangeMap trees

  abbrev pub at_map : Maps → ℕ → Loaded trees
  at_map s i = record { nodes = s.nodes; map = s.list i }

  abbrev pub put_map : Maps → ℕ → Loaded trees → Maps
  put_map s i t = record { nodes = t.nodes; list = λ j. if j == i then t.map else s.list j }

  -- The loop of `range_map_find_by_name` over the `n` maps from `i` on.
  unfoldable pub find_name_loop : (ℕ → RangeMap trees) → List ℕ → ℕ → ℕ → Option ℕ
  find_name_loop list name zero i = none
  find_name_loop list name (suc n) i =
      let rest = find_name_loop list name n (i + 1) in
      if same_bytes ((list i).name) name then some i else rest

  unfoldable pub range_map_find_by_name : Maps → List ℕ → Option ℕ
  unfolding find_name_loop
  range_map_find_by_name s name = find_name_loop s.list name range_map_max 0

  -- The loop of `range_map_new` for an unused map.
  unfoldable pub free_loop : (ℕ → RangeMap trees) → ℕ → ℕ → Option ℕ
  free_loop list zero i = none
  free_loop list (suc n) i =
      let rest = free_loop list n (i + 1) in if same_bytes ((list i).name) [] then some i else rest

  unfoldable pub range_map_new : Mem → Maps → Maps × Option Message
  unfolding range_map_name_check range_map_find_by_name free_loop strnlen
  range_map_new name s =
      let text = slice name 0 (strnlen name range_map_name_max) in
      elim (range_map_name_check name) [
        | some e ↦ (s, some e)
        | none ↦ elim (range_map_find_by_name s text) [
          | some i ↦ (s, some map_already_exist)
          | none ↦ elim (free_loop s.list range_map_max 0) [
            | none ↦ (s, some too_many_maps)
            | some i ↦ (
              put_map s i (record { nodes = s.nodes; map = record (s.list i) { name = text } }),
              none,
            )
          ]
        ]
      ]
