-- ===== src/HashLock/Release.antt =====
-- `esq_hash_lock_release` by the session at the head of the queue.
use esq.Base.{
  ℕ, zero, suc, ◌+◌, ◌<◌, ◌≡◌, ◌≢◌, refl, ap, inl, inr, sym, ◌∙◌, true, false, ◌||◌, List, [], ◌∷◌,
  arith, ltb, ◌==◌, if◌then◌else◌, Bool-cases, length, Mem, pos, store, store_self,
}
use esq.Chain.{null}
use esq.HashLock.State.{lock_read, lock_write, hash_lock_max, esq_ok, Store, ok, crash}
use esq.HashLock.{
  Layout, esq_free_hash_lock_ctx, wake_up_other_sessions, good_to_go, release_head_reader,
  release_loop, release_queue, esq_hash_lock_release,
}
use esq.HashLock.Queue.{IsQueue, LastIs, holders}
use esq.HashLock.Wake.{Wakes, deliver, Asleep, AllModes, join_local_wake_up_list-Woken}

-- The memory after `esq_free_hash_lock_ctx`.
abbrev pub freed_ctx : Layout → ℕ → Store → Store
freed_ctx lay ctx s = record s {
  ctx_session = store s.ctx_session ctx null;
  freed =
      if ltb ctx (s.ctx_session ctx) || ltb (s.ctx_session ctx + lay.session_size) ctx
      then ctx ∷ s.freed
      else s.freed;
}

pub free-freed_ctx :
    (lay : Layout) (ctx : ℕ) (s : Store)
    → s.ctx_session ctx ≢ null
    → esq_free_hash_lock_ctx lay ctx s ≡ ok tt (freed_ctx lay ctx s)
unfolding esq_free_hash_lock_ctx
free-freed_ctx lay ctx s n =
    let t : (s.ctx_session ctx == null) ≡ false = ground arith in
    rw t
      (elim (Bool-cases
        (ltb ctx (s.ctx_session ctx) || ltb (s.ctx_session ctx + lay.session_size) ctx)) [
          | inl out ↦ rw out refl
          | inr inside ↦ rw inside refl
        ])

-- The tail of a queue ends where the queue does.
pub LastIs-tail : (t p : ℕ) (zs : List ℕ) → LastIs t (p ∷ zs) → LastIs t zs
LastIs-tail t p [] h = tt
LastIs-tail t p (z ∷ zs) h = h

-- What a release by the owner of `p` leaves: the queue `zs`, the contexts `woken` on the lists of
-- their workers, and `p` with no session.
pub record Released (s t : Store) (lock p : ℕ) (zs : List ℕ) (lists : ℕ → List ℕ) (woken : List ℕ)
    : Type 0 where
  pub queue : IsQueue t lock zs
  pub wakes : Wakes t (deliver s.ctx_worker lists woken)
  pub sessions : t.ctx_session ≡ store s.ctx_session p null
  pub states : t.ctx_state ≡ s.ctx_state

module _ (lay : Layout) (fuel session lock p : ℕ) (zs : List ℕ) (lists : ℕ → List ℕ) (s : Store)
    (range : lock < hash_lock_max) (q : IsQueue s lock (p ∷ zs)) (owner : s.ctx_session p ≡ session)
    (ne : session ≢ null) (modes : AllModes s.ctx_state zs) (asleep : Asleep s.ctx_worker lists zs)
    (wakes : Wakes s lists) (enough : length zs < fuel) where
  -- The memory after the head has moved on.
  abbrev moved : Store
  moved = record s { head = store s.head lock (s.ctx_next p) }

  moved-IsQueue :
      (t : Store)
      → t.head ≡ moved.head
      → t.ctx_next ≡ s.ctx_next
      → t.tail ≡ s.tail
      → IsQueue t lock zs
  moved-IsQueue t h n e = record {
    chain = rw (n, h) (rw (store_self s.head lock (s.ctx_next p)) q.chain.2);
    distinct = q.distinct.1;
    tail_last = rw e (LastIs-tail (s.tail lock) p zs q.tail_last);
  }

  moved-Wakes : Wakes moved lists
  moved-Wakes w =
      let k = wakes w in
      record { chain = k.chain; distinct = k.distinct; tail_last = k.tail_last; own = k.own }

  woken-Released :
      (t : Store) × (wake_up_other_sessions lay fuel lock p moved ≡ ok esq_ok t)
      × Released s t lock p zs lists (holders s.ctx_state zs)
  unfolding wake_up_other_sessions
  woken-Released =
      let start = moved-IsQueue moved refl refl refl in
      let (t, run, kt, o) =
        join_local_wake_up_list-Woken fuel lock zs lists moved start.chain start.distinct modes
          asleep moved-Wakes enough in
      let own : t.ctx_session p ≢ null =
        λ h. ne (sym owner ∙ ap (λ (m : Mem). m p) (sym o.same_session) ∙ h) in
      rw (run, free-freed_ctx lay p t own)
        (
          freed_ctx lay p t,
          refl,
          record {
            queue = moved-IsQueue (freed_ctx lay p t) o.same_head o.same_next o.same_tail;
            wakes = λ w.
                let k = kt w in
                record {
                  chain = k.chain;
                  distinct = k.distinct;
                  tail_last = k.tail_last;
                  own = k.own;
                };
            sessions = ap (λ (m : Mem). store m p null) o.same_session;
            states = o.same_state;
          },
        )

  good-Released :
      (t : Store) × (good_to_go lay p moved ≡ ok esq_ok t) × Released s t lock p zs lists []
  unfolding good_to_go
  good-Released = rw (free-freed_ctx lay p moved λ h. ne (sym owner ∙ h)) (
    freed_ctx lay p moved,
    refl,
    record {
      queue = moved-IsQueue (freed_ctx lay p moved) refl refl refl;
      wakes = λ w.
          let k = wakes w in
          record { chain = k.chain; distinct = k.distinct; tail_last = k.tail_last; own = k.own };
      sessions = refl;
      states = refl;
    },
  )

  -- The release of a write lock by its holder returns ESQ_OK, takes its context off the queue and
  -- clears it, and wakes exactly the contexts that hold the lock from then on: all readers at the
  -- front of the remaining queue, or the writer at its head, each once, on its own worker and in
  -- queue order.
  pub esq_hash_lock_release_writer :
      s.ctx_state p ≡ lock_write
      → (t : Store) × (esq_hash_lock_release lay fuel session (pos lock) s ≡ ok esq_ok t)
        × Released s t lock p zs lists (holders s.ctx_state zs)
  unfolding esq_hash_lock_release release_queue
  esq_hash_lock_release_writer w =
      let small : ltb lock hash_lock_max ≡ true = ground arith in
      let e : s.head lock ≡ p = q.chain.0 in
      let nn : (p == null) ≡ false = ground (arith, q.chain.1) in
      let t0 : (s.ctx_state p == lock_read) ≡ false = ground arith in
      let t1 : (s.ctx_state p == lock_write) ≡ true = ground arith in
      let t2 : (s.ctx_session p == session) ≡ true = ground arith in
      rw small (rw e (rw (nn, t0, t1, t2) woken-Released))

-- A reader at the head of the queue, with another context behind it.
module _ (lay : Layout) (fuel session lock p z : ℕ) (zs : List ℕ) (lists : ℕ → List ℕ) (s : Store)
    (range : lock < hash_lock_max) (q : IsQueue s lock (p ∷ z ∷ zs))
    (owner : s.ctx_session p ≡ session) (ne : session ≢ null) (reader : s.ctx_state p ≡ lock_read)
    (modes : AllModes s.ctx_state (z ∷ zs)) (asleep : Asleep s.ctx_worker lists (z ∷ zs))
    (wakes : Wakes s lists) (enough : length (z ∷ zs) < fuel) where
  -- Whom the release wakes: nobody where the next one holds the lock already.
  abbrev pub next_woken : List ℕ
  next_woken = if s.ctx_state z == lock_read then [] else holders s.ctx_state (z ∷ zs)

  release_head-Released :
      (t : Store) × (release_head_reader lay fuel lock p s ≡ ok esq_ok t)
      × Released s t lock p (z ∷ zs) lists next_woken
  unfolding release_head_reader
  release_head-Released =
      let n : s.ctx_next p ≡ z = q.chain.2.0 in
      let nn : (z == null) ≡ false = ground (arith, q.chain.2.1) in
      elim (Bool-cases (s.ctx_state z == lock_read)) [
        | inl next_reads ↦
            rw (n, nn, next_reads)
              (rw n at (
                good-Released lay fuel session lock p (z ∷ zs) lists s range q owner ne modes asleep
                  wakes enough))
        | inr next_writes ↦
            rw (n, nn, next_writes)
              (rw next_writes at (
                rw n at (
                  woken-Released lay fuel session lock p (z ∷ zs) lists s range q owner ne modes
                    asleep wakes enough)))
      ]

  -- The release by a reader at the head of the queue that is not alone in it returns ESQ_OK and
  -- takes the reader's context off the queue. It wakes nobody where the next context is a reader,
  -- and the writer that is next otherwise.
  pub esq_hash_lock_release_head_reader :
      (t : Store) × (esq_hash_lock_release lay fuel session (pos lock) s ≡ ok esq_ok t)
      × Released s t lock p (z ∷ zs) lists next_woken
  unfolding esq_hash_lock_release release_queue
  esq_hash_lock_release_head_reader =
      let small : ltb lock hash_lock_max ≡ true = ground arith in
      let e : s.head lock ≡ p = q.chain.0 in
      let nn : (p == null) ≡ false = ground (arith, q.chain.1) in
      let t0 : (s.ctx_state p == lock_read) ≡ true = ground arith in
      rw small (rw e (rw (nn, t0) (first fuel enough release_head-Released)))
    where
      first :
          (f : ℕ)
          → length (z ∷ zs) < f
          → ((t : Store) × (release_head_reader lay f lock p s ≡ ok esq_ok t)
              × Released s t lock p (z ∷ zs) lists next_woken)
          → (t : Store) × (release_loop lay f lock session null p s ≡ ok esq_ok t)
            × Released s t lock p (z ∷ zs) lists next_woken
      first zero h r = absurd (omega arith)
      first (suc f) h r =
          let nn : (p == null) ≡ false = ground (arith, q.chain.1) in
          let t0 : (s.ctx_state p == lock_read) ≡ true = ground arith in
          let t1 : (s.ctx_session p == session) ≡ true = ground arith in rw (nn, t0, t1) r

-- The release by a reader that is alone in the queue reads `next->state` of the NULL behind it, and
-- the process crashes. So no lock that was held by one reader only is ever released.
pub esq_hash_lock_release_sole_reader :
    (lay : Layout) (fuel session lock p : ℕ) (s : Store)
    → lock < hash_lock_max
    → IsQueue s lock (p ∷ [])
    → s.ctx_state p ≡ lock_read
    → s.ctx_session p ≡ session
    → 0 < fuel
    → esq_hash_lock_release lay fuel session (pos lock) s ≡ crash
unfolding esq_hash_lock_release release_queue
esq_hash_lock_release_sole_reader lay zero session lock p s range q reader owner enough =
    absurd (omega arith)
esq_hash_lock_release_sole_reader lay (suc fuel) session lock p s range q reader owner enough =
    let small : ltb lock hash_lock_max ≡ true = ground arith in
    let e : s.head lock ≡ p = q.chain.0 in
    let nn : (p == null) ≡ false = ground (arith, q.chain.1) in
    let t0 : (s.ctx_state p == lock_read) ≡ true = ground arith in
    let t1 : (s.ctx_session p == session) ≡ true = ground arith in
    let end : s.ctx_next p ≡ null = q.chain.2 in
    rw small (rw e (rw (nn, t0, t1) (rw end (rw nn (rw t0 refl)))))
