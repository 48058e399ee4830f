-- ===== src/HashLock/Wake.antt =====
-- The wake-up lists of the workers.
use esq.Base.{
  ℕ, zero, suc, ◌<◌, ◌≡◌, ◌≢◌, ◌⊎◌, refl, ap, subst, inl, inr, sym, ◌∙◌, true, false, List, [], ◌∷◌,
  ◌++◌, arith, ◌==◌, if◌then◌else◌, Bool-cases, length, All, Mem, store, store_ne,
}
use esq.Chain.{
  null, has, Distinct, Chain, last, has-append, has-last, Distinct-concat, Chain-store,
  Chain-concat_at,
}
use esq.HashLock.State.{lock_read, lock_write, Store, Outcome, ok}
use esq.HashLock.{join_work_ctx, wake_readers, esq_hash_lock_ctx_join_local_wake_up_list}
use esq.HashLock.Queue.{LastIs, readers, holders, is_nil}

-- The wake-up list of worker `w` holds these contexts, which are all for that worker.
pub record IsWake (s : Store) (w : ℕ) (ys : List ℕ) : Type 0 where
  pub chain : Chain s.next_in_wake (s.wake_head w) ys
  pub distinct : Distinct ys
  pub tail_last : LastIs (s.wake_tail w) ys
  pub own : (a : ℕ) → has a ys ≡ true → s.ctx_worker a ≡ w

-- The wake-up lists of all workers.
abbrev pub Wakes : Store → (ℕ → List ℕ) → Type 0
Wakes s lists = (w : ℕ) → IsWake s w (lists w)

-- The contexts are added to the lists of their workers, in order.
abbrev pub deliver : Mem → (ℕ → List ℕ) → List ℕ → ℕ → List ℕ
deliver worker lists [] = lists
deliver worker lists (x ∷ xs) =
    deliver worker (λ v. if v == worker x then lists v ++ x ∷ [] else lists v) xs

-- The memory after HASH_LOCK_CTX_JOIN_WORK_CTX.
abbrev pub joined_work : ℕ → List ℕ → Store → Store
joined_work p ys s = record s {
  wake_head = if is_nil ys then store s.wake_head (s.ctx_worker p) p else s.wake_head;
  wake_tail = store s.wake_tail (s.ctx_worker p) p;
  next_in_wake =
      store
        (if is_nil ys
          then s.next_in_wake
          else store s.next_in_wake (s.wake_tail (s.ctx_worker p)) p)
        p null;
}

LastIs-concat : (xs : List ℕ) (c : ℕ) → LastIs c (xs ++ c ∷ [])
LastIs-concat [] c = refl
LastIs-concat (x ∷ xs) c = sym (last-concat x xs)
  where
    last-concat : (y : ℕ) (ys : List ℕ) → last y (ys ++ c ∷ []) ≡ c
    last-concat y [] = refl
    last-concat y (z ∷ zs) = last-concat z zs

last-ne-null :
    (next : Mem) (p x : ℕ) (xs : List ℕ) → Chain next p (x ∷ xs) → (last x xs == null) ≡ false
last-ne-null next p x [] (e, n, f) = ground arith
last-ne-null next p x (y ∷ ys) (e, n, f) = last-ne-null next (next x) y ys f

-- The node joins the list of its worker.
joined_own :
    (p w : ℕ) (ys : List ℕ) (s : Store)
    → w ≡ s.ctx_worker p
    → p ≢ null
    → IsWake s w ys
    → has p ys ≡ false
    → IsWake (joined_work p ys s) w (ys ++ p ∷ [])
unfolding store
joined_own p w [] s e n k h = record {
  chain = (ground arith, n, ground arith);
  distinct = (refl, tt);
  tail_last = ground arith;
  own = λ a m. ground (arith, ap s.ctx_worker);
}
joined_own p w (y ∷ ys) s e n k h = record {
  chain =
      Chain-concat_at s.next_in_wake (s.wake_tail (s.ctx_worker p)) (s.wake_head w) y ys p
        (ap s.wake_tail (sym e) ∙ k.tail_last) n k.distinct h k.chain;
  distinct = Distinct-concat (y ∷ ys) p k.distinct h;
  tail_last =
      subst (λ t. LastIs t ((y ∷ ys) ++ p ∷ []))
        (let at : p ≡ store s.wake_tail (s.ctx_worker p) p w = ground arith in at)
        (LastIs-concat (y ∷ ys) p);
  own = λ a m. ground (arith, has-append a (y ∷ ys) (p ∷ []), k.own a);
}

-- A context for another worker is not in the list of `v`.
not_own :
    (s : Store) (v a : ℕ) (zs : List ℕ) → IsWake s v zs → s.ctx_worker a ≢ v → has a zs ≡ false
not_own s v a zs l ne = elim (Bool-cases (has a zs)) [
  | inr out ↦ out
  | inl held ↦ absurd (ne (l.own a held))
]

-- The list of another worker stays as it was.
joined_other :
    (p w v : ℕ) (ys zs : List ℕ) (s : Store)
    → w ≡ s.ctx_worker p
    → v ≢ w
    → IsWake s w ys
    → IsWake s v zs
    → IsWake (joined_work p ys s) v zs
joined_other p w v [] zs s e n k l =
    let other : v ≢ s.ctx_worker p = λ h. n (h ∙ sym e) in
    record {
      chain = rw (store_ne s.wake_head (s.ctx_worker p) p v other) (
          Chain-store s.next_in_wake p null (s.wake_head v) zs
            (not_own s v p zs l λ h. other (sym h)) l.chain);
      distinct = l.distinct;
      tail_last = rw (store_ne s.wake_tail (s.ctx_worker p) p v other) l.tail_last;
      own = l.own;
    }
joined_other p w v (y ∷ ys) zs s e n k l =
    let other : v ≢ s.ctx_worker p = λ h. n (h ∙ sym e) in
    let t = s.wake_tail (s.ctx_worker p) in
    let held : has t (y ∷ ys) ≡ true =
      subst (λ a. has a (y ∷ ys) ≡ true) (sym (ap s.wake_tail (sym e) ∙ k.tail_last))
        (has-last y ys) in
    record {
      chain =
          Chain-store (store s.next_in_wake t p) p null (s.wake_head v) zs
            (not_own s v p zs l λ h. other (sym h))
            (Chain-store s.next_in_wake t p (s.wake_head v) zs
              (not_own s v t zs l λ h. n (sym h ∙ k.own t held)) l.chain);
      distinct = l.distinct;
      tail_last = rw (store_ne s.wake_tail (s.ctx_worker p) p v other) l.tail_last;
      own = l.own;
    }

-- HASH_LOCK_CTX_JOIN_WORK_CTX puts a context that is in no list behind the list of its worker.
pub join_work_ctx-Wakes :
    (p : ℕ) (lists : ℕ → List ℕ) (s : Store)
    → p ≢ null
    → has p (lists (s.ctx_worker p)) ≡ false
    → Wakes s lists
    → (join_work_ctx p s ≡ ok tt (joined_work p (lists (s.ctx_worker p)) s))
      × Wakes (joined_work p (lists (s.ctx_worker p)) s) (deliver s.ctx_worker lists (p ∷ []))
unfolding join_work_ctx
join_work_ctx-Wakes p lists s n h all = (run (lists (s.ctx_worker p)) (all (s.ctx_worker p)), after)
  where
    run :
        (ys : List ℕ)
        → IsWake s (s.ctx_worker p) ys
        → join_work_ctx p s ≡ ok tt (joined_work p ys s)
    run [] k =
        let t : (s.wake_head (s.ctx_worker p) == null) ≡ true = ground (arith, k.chain) in rw t refl
    run (y ∷ ys) k =
        let t : (s.wake_head (s.ctx_worker p) == null) ≡ false = ground (arith, k.chain) in
        let u : (s.wake_tail (s.ctx_worker p) == null) ≡ false =
          rw k.tail_last
            (last-ne-null s.next_in_wake (s.wake_head (s.ctx_worker p)) y ys k.chain) in
        rw t (rw u refl)

    after :
        (v : ℕ)
        → IsWake
            (joined_work p (lists (s.ctx_worker p)) s)
            v
            (if v == s.ctx_worker p then lists v ++ p ∷ [] else lists v)
    after v = elim (Bool-cases (v == s.ctx_worker p)) [
      | inl same ↦
          let e : s.ctx_worker p ≡ v = ground arith in
          rw same (
            subst (λ x. IsWake (joined_work p (lists (s.ctx_worker p)) s) x (lists x ++ p ∷ [])) e
              (joined_own p (s.ctx_worker p) (lists (s.ctx_worker p)) s refl n
                (all (s.ctx_worker p)) h))
      | inr other ↦ rw other (
          joined_other p (s.ctx_worker p) v (lists (s.ctx_worker p)) (lists v) s refl (ground arith)
            (all (s.ctx_worker p)) (all v))
    ]

-- Only the wake-up lists differ.
pub record OnlyWake (s t : Store) : Type 0 where
  pub same_session : t.ctx_session ≡ s.ctx_session
  pub same_state : t.ctx_state ≡ s.ctx_state
  pub same_worker : t.ctx_worker ≡ s.ctx_worker
  pub same_next : t.ctx_next ≡ s.ctx_next
  pub same_head : t.head ≡ s.head
  pub same_tail : t.tail ≡ s.tail
  pub same_freed : t.freed ≡ s.freed

pub OnlyWake-refl : (s : Store) → OnlyWake s s
OnlyWake-refl s = record {
  same_session = refl;
  same_state = refl;
  same_worker = refl;
  same_next = refl;
  same_head = refl;
  same_tail = refl;
  same_freed = refl;
}

-- The contexts are in no wake-up list.
abbrev pub Asleep : Mem → (ℕ → List ℕ) → List ℕ → Type 0
Asleep worker lists xs = All (λ x. has x (lists (worker x)) ≡ false) xs

Asleep-deliver :
    (worker : Mem) (lists : ℕ → List ℕ) (x : ℕ) (xs : List ℕ)
    → has x xs ≡ false
    → Asleep worker lists xs
    → Asleep worker (deliver worker lists (x ∷ [])) xs
Asleep-deliver worker lists x [] h a = tt
Asleep-deliver worker lists x (y ∷ ys) h (b, a) = (
  ground (arith, has-append y (lists (worker y)) (x ∷ [])),
  Asleep-deliver worker lists x ys (ground arith) a,
)

abbrev Woken : Store → (ℕ → List ℕ) → List ℕ → Outcome (Unit {0}) → Type 0
Woken s lists xs r =
    (t : Store) × (r ≡ ok tt t) × Wakes t (deliver s.ctx_worker lists xs) × OnlyWake s t

wake_readers-Woken :
    (fuel p : ℕ) (zs : List ℕ) (lists : ℕ → List ℕ) (s : Store)
    → Chain s.ctx_next p zs
    → Distinct zs
    → Asleep s.ctx_worker lists zs
    → Wakes s lists
    → length zs < fuel
    → Woken s lists (readers s.ctx_state zs) (wake_readers fuel p s)
unfolding wake_readers
wake_readers-Woken zero p zs lists s c d a k f = absurd (omega arith)
wake_readers-Woken (suc fuel) p [] lists s c d a k f =
    let end : (p == null) ≡ true = ground arith in rw end (s, refl, k, OnlyWake-refl s)
wake_readers-Woken (suc fuel) p (z ∷ zs) lists s (e, n, c) (h, d) (b, a) k f =
    let more : (p == null) ≡ false = ground arith in
    rw more (
      rw e (elim (Bool-cases (s.ctx_state z == lock_read)) [
        | inr writer ↦ rw writer (s, refl, k, OnlyWake-refl s)
        | inl reader ↦ rw reader (
            let (run, k') = join_work_ctx-Wakes z lists s n b k in
            let (t, rest, kt, o) =
              wake_readers-Woken fuel (s.ctx_next z) zs (deliver s.ctx_worker lists (z ∷ []))
                (joined_work z (lists (s.ctx_worker z)) s) c d
                (Asleep-deliver s.ctx_worker lists z zs h a) k' (omega arith) in
            rw run (
              t,
              rest,
              kt,
              record {
                same_session = o.same_session;
                same_state = o.same_state;
                same_worker = o.same_worker;
                same_next = o.same_next;
                same_head = o.same_head;
                same_tail = o.same_tail;
                same_freed = o.same_freed;
              },
            ))
      ]))

-- The modes of the queued contexts are those of the source.
abbrev pub AllModes : Mem → List ℕ → Type 0
AllModes state xs = All (λ x. (state x ≡ lock_read) ⊎ (state x ≡ lock_write)) xs

-- `__esq_hash_lock_ctx_join_local_wake_up_list` wakes exactly the holders of the queue, each on its
-- own worker and in queue order.
pub join_local_wake_up_list-Woken :
    (fuel lock : ℕ) (xs : List ℕ) (lists : ℕ → List ℕ) (s : Store)
    → Chain s.ctx_next (s.head lock) xs
    → Distinct xs
    → AllModes s.ctx_state xs
    → Asleep s.ctx_worker lists xs
    → Wakes s lists
    → length xs < fuel
    → Woken s lists (holders s.ctx_state xs) (esq_hash_lock_ctx_join_local_wake_up_list fuel lock s)
unfolding esq_hash_lock_ctx_join_local_wake_up_list
join_local_wake_up_list-Woken fuel lock [] lists s c d m a k f =
    let end : (s.head lock == null) ≡ true = ground arith in rw end (s, refl, k, OnlyWake-refl s)
join_local_wake_up_list-Woken fuel lock (x ∷ xs) lists s (e, n, c) d (inl r, m) a k f =
    let more : (s.head lock == null) ≡ false = ground arith in
    let test : (s.ctx_state (s.head lock) == lock_read) ≡ true = ground (arith, ap s.ctx_state e) in
    let test' : (s.ctx_state x == lock_read) ≡ true = ground arith in
    rw (more, test, test')
      (rw test' at (wake_readers-Woken fuel (s.head lock) (x ∷ xs) lists s (e, n, c) d a k f))
join_local_wake_up_list-Woken fuel lock (x ∷ xs) lists s (e, n, c) d (inr w, m) (b, a) k f =
    let more : (s.head lock == null) ≡ false = ground arith in
    let mode : s.ctx_state (s.head lock) ≡ lock_write = ap s.ctx_state e ∙ w in
    let test : (s.ctx_state (s.head lock) == lock_read) ≡ false = ground arith in
    let test' : (s.ctx_state (s.head lock) == lock_write) ≡ true = ground arith in
    let head_writes : (s.ctx_state x == lock_read) ≡ false = ground arith in
    let (run, k') = join_work_ctx-Wakes x lists s n b k in
    rw (more, test, test', head_writes)
      (
        joined_work x (lists (s.ctx_worker x)) s,
        ap (λ (p : ℕ). join_work_ctx p s) e ∙ run,
        k',
        record {
          same_session = refl;
          same_state = refl;
          same_worker = refl;
          same_next = refl;
          same_head = refl;
          same_tail = refl;
          same_freed = refl;
        },
      )
