-- ===== src/RangeMap/Connecting.antt =====
-- The loops of the notices of `src/range-map.c`, over the list of the nodes of a map.
use esq.Base.{
  ℕ, zero, suc, ◌<◌, ◌≡◌, refl, ap, ◌∙◌, inl, inr, Bool, true, false, ◌&&◌, List, [], ◌∷◌, arith,
  ◌==◌, if◌then◌else◌, Bool-cases, length, Mem, store, done,
}
use esq.Chain.{null, has, Chain}
use esq.RangeMap.State.{Nodes}
use esq.RangeMap.Buckets.{remote_node, self_node, online_loop, offline_loop}

-- The nodes with other buckets.
abbrev pub with_buckets : Nodes → Mem → Nodes
with_buckets ns buckets = record ns { bucket = buckets }

offline_hit :
    (bucket : ℕ) (buckets : Mem) (x : ℕ) (all : List ℕ) (a : ℕ)
    → (buckets x == bucket) ≡ true
    → (if has a all && store buckets x null a == bucket then null else store buckets x null a)
      ≡ (if has a (x ∷ all) && buckets a == bucket then null else buckets a)
unfolding store
offline_hit bucket buckets x all a hit = elim (Bool-cases (a == x)) [
  | inl e ↦
      let same : a ≡ x = ground arith in
      let own : (buckets a == bucket) ≡ true = ap (λ b. buckets b == bucket) same ∙ hit in
      rw (e, own)
        (elim (Bool-cases (has a all && null == bucket)) [ inl t ↦ rw t refl | inr t ↦ rw t refl ])
  | inr e ↦ rw e refl
]

offline_miss :
    (bucket : ℕ) (buckets : Mem) (x : ℕ) (all : List ℕ) (a : ℕ)
    → (buckets x == bucket) ≡ false
    → (if has a all && buckets a == bucket then null else buckets a)
      ≡ (if has a (x ∷ all) && buckets a == bucket then null else buckets a)
offline_miss bucket buckets x all a miss = elim (Bool-cases (a == x)) [
  | inl e ↦
      let same : a ≡ x = ground arith in
      let own : (buckets a == bucket) ≡ false = ap (λ b. buckets b == bucket) same ∙ miss in
      rw (e, own) (elim (Bool-cases (has a all)) [ inl t ↦ rw t refl | inr t ↦ rw t refl ])
  | inr e ↦ rw e refl
]

pub offline_loop_lem :
    (fuel bucket : ℕ) (ns : Nodes) (buckets : Mem) (p : ℕ) (all : List ℕ)
    → Chain ns.all_node_list_next p all
    → length all < fuel
    → (buckets' : Mem) × (offline_loop fuel bucket (with_buckets ns buckets) p
        ≡ done (with_buckets ns buckets'))
      × ((a : ℕ) → buckets' a ≡ (if has a all && buckets a == bucket then null else buckets a))
unfolding offline_loop
offline_loop_lem zero bucket ns buckets p all c f = absurd (omega arith)
offline_loop_lem (suc fuel) bucket ns buckets p [] c f = (buckets, rw c refl, λ a. refl)
offline_loop_lem (suc fuel) bucket ns buckets p (x ∷ all) (e, n, c) f =
    let more : (x == null) ≡ false = ground arith in
    elim (Bool-cases (buckets x == bucket)) [
      | inl hit ↦
          let (buckets', run, now) =
            offline_loop_lem fuel bucket ns (store buckets x null) (ns.all_node_list_next x) all c
              (omega arith) in
          (buckets', rw (e, more, hit) run, λ a. now a ∙ offline_hit bucket buckets x all a hit)
      | inr miss ↦
          let (buckets', run, now) =
            offline_loop_lem fuel bucket ns buckets (ns.all_node_list_next x) all c (omega arith) in
          (buckets', rw (e, more, miss) run, λ a. now a ∙ offline_miss bucket buckets x all a miss)
    ]

-- The nodes that `range_map_notify_bucket_online` connects.
abbrev pub served : Nodes → ℕ → ℕ → List ℕ → ℕ → Bool
served ns ip port hash_str a =
    if ip == 0 && port == 0 then self_node ns hash_str a else remote_node ns ip port hash_str a

online_hit :
    (test : ℕ → Bool) (bucket : ℕ) (buckets : Mem) (x : ℕ) (all : List ℕ) (a : ℕ)
    → test x ≡ true
    → (if has a all && test a then bucket else store buckets x bucket a)
      ≡ (if has a (x ∷ all) && test a then bucket else buckets a)
unfolding store
online_hit test bucket buckets x all a hit = elim (Bool-cases (a == x)) [
  | inl e ↦
      let same : a ≡ x = ground arith in
      let own : test a ≡ true = ap test same ∙ hit in
      rw (e, own) (elim (Bool-cases (has a all)) [ inl t ↦ rw t refl | inr t ↦ rw t refl ])
  | inr e ↦ rw e refl
]

online_miss :
    (test : ℕ → Bool) (bucket : ℕ) (buckets : Mem) (x : ℕ) (all : List ℕ) (a : ℕ)
    → test x ≡ false
    → (if has a all && test a then bucket else buckets a)
      ≡ (if has a (x ∷ all) && test a then bucket else buckets a)
online_miss test bucket buckets x all a miss = elim (Bool-cases (a == x)) [
  | inl e ↦
      let same : a ≡ x = ground arith in
      let own : test a ≡ false = ap test same ∙ miss in
      rw (e, own) (elim (Bool-cases (has a all)) [ inl t ↦ rw t refl | inr t ↦ rw t refl ])
  | inr e ↦ rw e refl
]

pub online_loop_lem :
    (fuel bucket ip port : ℕ) (hash_str : List ℕ) (ns : Nodes) (buckets : Mem) (p : ℕ)
    (all : List ℕ)
    → Chain ns.all_node_list_next p all
    → length all < fuel
    → (buckets' : Mem) × (online_loop fuel bucket ip port hash_str (with_buckets ns buckets) p
        ≡ done (with_buckets ns buckets'))
      × ((a : ℕ)
          → buckets' a ≡ (if has a all && served ns ip port hash_str a then bucket else buckets a))
unfolding online_loop
online_loop_lem zero bucket ip port hash_str ns buckets p all c f = absurd (omega arith)
online_loop_lem (suc fuel) bucket ip port hash_str ns buckets p [] c f =
    (buckets, rw c refl, λ a. refl)
online_loop_lem (suc fuel) bucket ip port hash_str ns buckets p (x ∷ all) (e, n, c) f =
    let more : (x == null) ≡ false = ground arith in
    elim (Bool-cases (served ns ip port hash_str x)) [
      | inl hit ↦
          let (buckets', run, now) =
            online_loop_lem fuel bucket ip port hash_str ns (store buckets x bucket)
              (ns.all_node_list_next x) all c (omega arith) in
          (
            buckets',
            rw (e, more, hit) run,
            λ a. now a ∙ online_hit (served ns ip port hash_str) bucket buckets x all a hit,
          )
      | inr miss ↦
          let (buckets', run, now) =
            online_loop_lem fuel bucket ip port hash_str ns buckets (ns.all_node_list_next x) all c
              (omega arith) in
          (
            buckets',
            rw (e, more, miss) run,
            λ a. now a ∙ online_miss (served ns ip port hash_str) bucket buckets x all a miss,
          )
    ]
