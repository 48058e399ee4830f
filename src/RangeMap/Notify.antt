-- ===== src/RangeMap/Notify.antt =====
-- What the notices of the buckets do to the nodes of a map.
use esq.Base.{
  ℕ, ◌<◌, ◌≡◌, ◌≢◌, ◌⊎◌, refl, subst, ◌∙◌, inl, inr, Bool, true, false, ◌&&◌, ◌||◌, some, List,
  arith, ◌==◌, if◌then◌else◌, Bool-cases, length, Mem, done,
}
use esq.Chain.{null, has}
use esq.RangeMap.RbTree.{Trees}
use esq.RangeMap.State.{rm_node_me, has_flag, same_bytes, Nodes, key_of}
use esq.RangeMap.Groups.{same_bytes-eq, same_bytes_refl}
use esq.RangeMap.Refine.{IsMap}
use esq.RangeMap.Commands.{Maps, at_map}
use esq.RangeMap.Buckets.{
  remote_node, self_node, range_map_find_by_name2, range_map_notify_bucket_online,
  range_map_notify_bucket_offline,
}
use esq.RangeMap.Connecting.{with_buckets, served, offline_loop_lem, online_loop_lem}

offline_after :
    (here hit : Bool) (o b bucket : ℕ)
    → o ≡ (if here && hit then bucket else b)
    → (if here && o == bucket then null else o) ≡ (if here && (hit || b == bucket) then null else b)
offline_after true true o b bucket e =
    let same : (o == bucket) ≡ true = ground arith in rw same refl
offline_after true false o b bucket e = rw e refl
offline_after false hit o b bucket e = e

-- The node `a` is the one that a bucket with this address and hash string is for: the hash is the
-- same, and the node is of this machine where the bucket has no address, and otherwise a node of
-- another machine at that address.
abbrev pub Addressed : Nodes → ℕ → ℕ → List ℕ → ℕ → Type 0
Addressed ns ip port hash_str a =
    (ns.hash_length a ≡ length hash_str)
    × (key_of ns a ≡ hash_str)
    × (((ip ≡ 0) × (port ≡ 0) × (has_flag (ns.flags a) rm_node_me ≡ true))
        ⊎ (((ip ≢ 0) ⊎ (port ≢ 0))
            × (has_flag (ns.flags a) rm_node_me ≡ false)
            × (ns.ip a ≡ ip)
            × (ns.port a ≡ port)))

-- The new bucket of the node `a`: `new` where `P` holds, and as before where it does not.
abbrev pub Becomes : Type 0 → ℕ → ℕ → ℕ → Type 0
Becomes P new before now = (P × (now ≡ new)) ⊎ ((¬ P) × (now ≡ before))

served_same :
    (ns : Nodes) (hash_str : List ℕ) (a : ℕ)
    → (ns.hash_length a == length hash_str && same_bytes (key_of ns a) hash_str) ≡ true
    → (ns.hash_length a ≡ length hash_str) × (key_of ns a ≡ hash_str)
served_same ns hash_str a h = (ground arith, same_bytes-eq (key_of ns a) hash_str (ground arith))

served-Addressed :
    (ns : Nodes) (ip port : ℕ) (hash_str : List ℕ) (a : ℕ)
    → served ns ip port hash_str a ≡ true
    → Addressed ns ip port hash_str a
served-Addressed ns ip port hash_str a h = elim (Bool-cases (ip == 0 && port == 0)) [
  | inl e ↦
      let t : self_node ns hash_str a ≡ true = rw e at h in
      let (l, k) = served_same ns hash_str a (ground arith) in
      (l, k, inl (ground arith, ground arith, ground arith))
  | inr e ↦
      let t : remote_node ns ip port hash_str a ≡ true = rw e at h in
      let (l, k) = served_same ns hash_str a (ground arith) in
      (l, k, inr (ground arith, ground arith, ground arith, ground arith))
]

Addressed-served :
    (ns : Nodes) (ip port : ℕ) (hash_str : List ℕ) (a : ℕ)
    → Addressed ns ip port hash_str a
    → served ns ip port hash_str a ≡ true
Addressed-served ns ip port hash_str a (l, k, at) =
    let same : same_bytes (key_of ns a) hash_str ≡ true =
      subst (λ h. same_bytes (key_of ns a) h ≡ true) k (same_bytes_refl (key_of ns a)) in
    elim at [ inl (i, p, me) ↦ ground arith | inr (n, me, i, p) ↦ ground arith ]

module _ (ns : Nodes) (ip port : ℕ) (hash_str : List ℕ) (bucket : ℕ) (all : List ℕ)
    (a now : ℕ) where
  online-Becomes :
      now ≡ (if has a all && served ns ip port hash_str a then bucket else ns.bucket a)
      → Becomes ((has a all ≡ true) × Addressed ns ip port hash_str a) bucket (ns.bucket a) now
  online-Becomes e = elim (Bool-cases (has a all && served ns ip port hash_str a)) [
    | inl t ↦
        inl ((ground arith, served-Addressed ns ip port hash_str a (ground arith)), e ∙ rw t refl)
    | inr t ↦ inr (
      λ (here, addressed).
          let h = Addressed-served ns ip port hash_str a addressed in cc (rw (here, h) at t),
      e ∙ rw t refl,
    )
  ]

  offline-Becomes :
      now ≡ (
        if has a all && (served ns ip port hash_str a || ns.bucket a == bucket)
        then null
        else ns.bucket a)
      → Becomes
          ((has a all ≡ true) × (Addressed ns ip port hash_str a ⊎ (ns.bucket a ≡ bucket)))
          null
          (ns.bucket a)
          now
  offline-Becomes e =
      elim (Bool-cases (has a all && (served ns ip port hash_str a || ns.bucket a == bucket))) [
        | inl t ↦ inl (
          (
            ground arith,
            elim (Bool-cases (served ns ip port hash_str a)) [
              | inl h ↦ inl (served-Addressed ns ip port hash_str a h)
              | inr h ↦ inr (ground arith)
            ],
          ),
          e ∙ rw t refl,
        )
        | inr t ↦ inr (
          λ (here, x). elim x [
            | inl addressed ↦
                let h = Addressed-served ns ip port hash_str a addressed in cc (rw (here, h) at t)
            | inr own ↦ let h : (ns.bucket a == bucket) ≡ true = ground arith in ground arith
          ],
          e ∙ rw t refl,
        )
      ]

module _ (trees : Trees) (s : Maps trees) (i : ℕ) (all : List ℕ) (fuel : ℕ)
    (ok : IsMap trees (at_map trees s i) all) (small : length all < fuel) (bucket ip port : ℕ)
    (hash_str name : List ℕ) (named : range_map_find_by_name2 trees s name ≡ some i) where
  -- For the name of a map, on more fuel than it has nodes, a notice that a bucket is online
  -- connects it to exactly those nodes of the map whose hash, in binary, has the length and the
  -- bytes that are handed over as its hash string, and which are flagged as nodes of this machine
  -- where the address and the port are 0, and otherwise have that address and port and are not
  -- flagged so. A notice after it that the bucket is offline takes it from these nodes and from all
  -- nodes of the map that had it before. No other node changes in either.
  pub notify_online-offline :
      (online offline : Mem) × (range_map_notify_bucket_online trees fuel bucket ip port hash_str
          name s
        ≡ done (record s { nodes = with_buckets s.nodes online }))
      × (range_map_notify_bucket_offline trees fuel bucket name
            (record s { nodes = with_buckets s.nodes online })
          ≡ done (record s { nodes = with_buckets s.nodes offline }))
      × ((a : ℕ)
          → Becomes
              ((has a all ≡ true) × Addressed s.nodes ip port hash_str a)
              bucket
              (s.nodes.bucket a)
              (online a))
      × ((a : ℕ)
          → Becomes
              ((has a all ≡ true)
                × (Addressed s.nodes ip port hash_str a ⊎ (s.nodes.bucket a ≡ bucket)))
              null
              (s.nodes.bucket a)
              (offline a))
  unfolding range_map_notify_bucket_online range_map_notify_bucket_offline
  notify_online-offline =
      let (online, run, now) =
        online_loop_lem fuel bucket ip port hash_str s.nodes s.nodes.bucket (s.list i).all_list all
          ok.listed small in
      let (offline, run2, now2) =
        offline_loop_lem fuel bucket s.nodes online (s.list i).all_list all ok.listed small in
      (
        online,
        offline,
        rw (named, run, range_map_notify_bucket_online) refl,
        rw (named, run2, range_map_notify_bucket_offline) refl,
        λ a. online-Becomes s.nodes ip port hash_str bucket all a (online a) (now a),
        λ a. offline-Becomes s.nodes ip port hash_str bucket all a (offline a) (
            now2 a
            ∙ offline_after (has a all) (served s.nodes ip port hash_str a) (online a)
                (s.nodes.bucket a) bucket (now a)),
      )
