-- ===== src/HashLock/Grant.antt =====
-- `esq_try_fetch_hash_lock` from the session to the queue: what a first call and a repeated one do.
use esq.Base.{
  ℕ, ◌<◌, ◌≡◌, ◌≢◌, ◌⊎◌, refl, ap, inl, inr, sym, subst, ◌∙◌, Bool, true, false, List, [], ◌∷◌,
  ◌++◌, arith, ltb, ◌==◌, if◌then◌else◌, any, length, Mem, pos, store, store_self, store_ne,
}
use esq.Chain.{null, has}
use esq.HashLock.State.{
  hash_lock_max, Code, esq_ok, error_memory, error_busy, Store, Outcome, ok, design_error,
}
use esq.HashLock.{
  Layout, esq_alloc_hash_lock_ctx, fetch_locked, fetch_valid, esq_try_fetch_hash_lock,
}
use esq.HashLock.Queue.{IsQueue, holders, queued, queued-IsQueue}
use esq.HashLock.Fetch.{IsMode, is_dup, fetch_locked-holders, fetch_locked-is_dup}
use esq.HashLock.Alloc.{Owned, NoneFree, Source, Allocation, alloc-Allocation}

-- Some context of the session is queued.
abbrev pub is_waiting : Store → ℕ → List ℕ → Bool
is_waiting s session xs = any (λ p. s.ctx_session p == session) xs

-- What a fetch by a session that is not queued does: no context of the session is free and
-- `malloc` fails, or a new context of the session, with the mode that the session asks for, is the
-- last of the queue, and the call says whether it is among the holders. The context is one of the
-- three of the session that was free, or, where none was, the one at `fresh`.
abbrev pub Fetched : Layout → ℕ → Store → ℕ → ℕ → List ℕ → Outcome Code → Type 0
Fetched lay fresh s lock session xs r =
    ((r ≡ ok error_memory s) × (fresh ≡ null) × NoneFree lay s session 3 0)
    ⊎ ((ctx : ℕ) × (s' : Store) × (r
          ≡ ok (if has ctx (holders s'.ctx_state (xs ++ ctx ∷ [])) then esq_ok else error_busy) s')
        × IsQueue s' lock (xs ++ ctx ∷ [])
        × (has ctx xs ≡ false)
        × (s'.ctx_session ctx ≡ session)
        × (s'.ctx_state ctx ≡ s.session_state session)
        × ((a : ℕ) → a ≢ ctx → s'.ctx_state a ≡ s.ctx_state a)
        × Source lay s session 3 0 fresh ctx)

-- What a fetch by a session that is queued already does.
abbrev pub Repeated : Layout → ℕ → Store → ℕ → Outcome Code → Type 0
Repeated lay fresh s session r =
    ((r ≡ ok error_memory s) × (fresh ≡ null) × NoneFree lay s session 3 0) ⊎ (r ≡ design_error)

is_dup-is_waiting :
    (s t : Store) (ctx session : ℕ) (ys : List ℕ)
    → t.ctx_session ctx ≡ session
    → ((a : ℕ) → a ≢ ctx → t.ctx_session a ≡ s.ctx_session a)
    → has ctx ys ≡ false
    → is_waiting s session ys ≡ false
    → is_dup t ctx ys ≡ false
is_dup-is_waiting s t ctx session [] e same h w = refl
is_dup-is_waiting s t ctx session (y ∷ ys) e same h w =
    ground (arith, same y, is_dup-is_waiting s t ctx session ys e same)

queued-states :
    (lock ctx : ℕ) (xs : List ℕ) (s : Store) → (queued lock ctx xs s).ctx_state ≡ s.ctx_state
queued-states lock ctx [] s = refl
queued-states lock ctx (x ∷ xs) s = refl

queued-sessions :
    (lock ctx : ℕ) (xs : List ℕ) (s : Store) → (queued lock ctx xs s).ctx_session ≡ s.ctx_session
queued-sessions lock ctx [] s = refl
queued-sessions lock ctx (x ∷ xs) s = refl

waiting-is_dup :
    (s t : Store) (ctx session : ℕ) (ys : List ℕ)
    → t.ctx_session ctx ≡ session
    → ((a : ℕ) → a ≢ ctx → t.ctx_session a ≡ s.ctx_session a)
    → has ctx ys ≡ false
    → is_waiting s session ys ≡ true
    → is_dup t ctx ys ≡ true
waiting-is_dup s t ctx session [] e same h w = absurd (cc w)
waiting-is_dup s t ctx session (y ∷ ys) e same h w =
    ground (arith, same y, waiting-is_dup s t ctx session ys e same)

module _ (lay : Layout) (fuel fresh worker session lock : ℕ) (xs : List ℕ) (s : Store)
    (at : s.session_idx session ≡ pos lock) (range : lock < hash_lock_max) where
  -- The memory at the time of the queue operation.
  abbrev prepared : ℕ → Store → Store
  prepared ctx t = record t {
    ctx_state = store t.ctx_state ctx (t.session_state session);
    ctx_idx = store t.ctx_idx ctx lock;
    ctx_worker = store t.ctx_worker ctx worker;
  }

  fetch_valid-Fetched :
      IsQueue s lock xs
      → Owned s xs
      → session ≢ null
      → has fresh xs ≡ false
      → IsMode (s.session_state session)
      → is_waiting s session xs ≡ false
      → length xs < fuel
      → Allocation lay s lock session 3 0 xs fresh (esq_alloc_hash_lock_ctx lay fresh session s)
      → Fetched lay fresh s lock session xs (fetch_valid lay fuel false fresh worker session lock s)
  unfolding fetch_valid
  fetch_valid-Fetched q o ne new mode free enough (inl (none_left, oom, used)) =
      rw none_left (inl (refl, oom, used))
  fetch_valid-Fetched q o ne new mode free enough (inr (p, t, got, a, src)) =
      let nn : (p == null) ≡ false = ground (arith, a.ne_null) in
      let u = prepared p t in
      let q' : IsQueue u lock xs = record {
        chain = a.queue.chain;
        distinct = a.queue.distinct;
        tail_last = a.queue.tail_last;
      } in
      let st : u.ctx_state p ≡ t.session_state session =
        store_self t.ctx_state p (t.session_state session) in
      let st' : u.ctx_state p ≡ s.session_state session =
        st ∙ ap (λ (m : Mem). m session) a.same_state in
      let w = queued lock p xs u in
      let asked : fetch_locked lay fuel (t.session_state session) lock p u
          ≡ ok (if has p (holders w.ctx_state (xs ++ p ∷ [])) then esq_ok else error_busy) w =
        ap (λ (m : ℕ). fetch_locked lay fuel m lock p u) (sym st)
        ∙ fetch_locked-holders lay fuel lock p xs u q' a.new (subst IsMode (sym st') mode) enough
            (is_dup-is_waiting s u p session xs a.owner a.other_sessions a.new free)
        ∙ ap (λ (m : Mem). ok (if has p (holders m (xs ++ p ∷ [])) then esq_ok else error_busy) w)
            (sym (queued-states lock p xs u)) in
      rw (got, nn)
        (inr (
          p,
          w,
          asked,
          queued-IsQueue lock p xs u q' a.ne_null a.new,
          a.new,
          ap (λ (m : Mem). m p) (queued-sessions lock p xs u) ∙ a.owner,
          ap (λ (m : Mem). m p) (queued-states lock p xs u) ∙ st',
          λ b nb.
              ap (λ (m : Mem). m b) (queued-states lock p xs u)
              ∙ store_ne t.ctx_state p (t.session_state session) b nb
              ∙ a.other_states b nb,
          src,
        ))

  -- A fetch by a session that is not yet queued, with a valid index and mode while the server
  -- runs, on more fuel than the queue has nodes, where each queued context has a session and
  -- `malloc` gives none of them again: it returns ESQ_ERROR_MEMORY, with nothing changed, only
  -- where none of the three contexts of the session is free and `malloc` gave NULL. Otherwise a
  -- new context of the session, in the mode that the session asks for, is queued last: one of the
  -- three that was free or, where none was, what `malloc` gave. The call then returns ESQ_OK
  -- exactly where that context is among the holders of the lock, and ESQ_ERROR_BUSY otherwise.
  pub esq_try_fetch_hash_lock-Fetched :
      IsQueue s lock xs
      → Owned s xs
      → session ≢ null
      → has fresh xs ≡ false
      → IsMode (s.session_state session)
      → is_waiting s session xs ≡ false
      → length xs < fuel
      → Fetched lay fresh s lock session xs
          (esq_try_fetch_hash_lock lay fuel false fresh worker session s)
  unfolding esq_try_fetch_hash_lock
  esq_try_fetch_hash_lock-Fetched q o ne new mode free enough =
      let small : ltb lock hash_lock_max ≡ true = ground arith in
      rw at (
        rw small (
          fetch_valid-Fetched q o ne new mode free enough
            (alloc-Allocation lay fresh session lock xs s q o ne new)))

  fetch_valid-is_waiting :
      IsQueue s lock xs
      → IsMode (s.session_state session)
      → is_waiting s session xs ≡ true
      → length xs < fuel
      → Allocation lay s lock session 3 0 xs fresh (esq_alloc_hash_lock_ctx lay fresh session s)
      → Repeated lay fresh s session (fetch_valid lay fuel false fresh worker session lock s)
  unfolding fetch_valid
  fetch_valid-is_waiting q mode waits enough (inl (none_left, oom, used)) =
      rw none_left (inl (refl, oom, used))
  fetch_valid-is_waiting q mode waits enough (inr (p, t, got, a, src)) =
      let nn : (p == null) ≡ false = ground (arith, a.ne_null) in
      let u = prepared p t in
      let q' : IsQueue u lock xs = record {
        chain = a.queue.chain;
        distinct = a.queue.distinct;
        tail_last = a.queue.tail_last;
      } in
      let st : u.ctx_state p ≡ t.session_state session =
        store_self t.ctx_state p (t.session_state session) in
      let st' : u.ctx_state p ≡ s.session_state session =
        st ∙ ap (λ (m : Mem). m session) a.same_state in
      let asked : fetch_locked lay fuel (t.session_state session) lock p u ≡ design_error =
        ap (λ (m : ℕ). fetch_locked lay fuel m lock p u) (sym st)
        ∙ fetch_locked-is_dup lay fuel lock p xs u q' a.new (subst IsMode (sym st') mode) enough
            (waiting-is_dup s u p session xs a.owner a.other_sessions a.new waits) in
      rw (got, nn) (inr asked)

  -- A fetch by a session of which a context is in the queue of the lock already, with a valid
  -- index and mode while the server runs, on more fuel than the queue has nodes, where each queued
  -- context has a session and `malloc` gives none of them again, ends the process, whatever it
  -- asks for; only where none of the three contexts of the session is free and `malloc` gave NULL
  -- does it return ESQ_ERROR_MEMORY instead, with nothing changed.
  pub esq_try_fetch_hash_lock-is_waiting :
      IsQueue s lock xs
      → Owned s xs
      → session ≢ null
      → has fresh xs ≡ false
      → IsMode (s.session_state session)
      → is_waiting s session xs ≡ true
      → length xs < fuel
      → Repeated lay fresh s session (esq_try_fetch_hash_lock lay fuel false fresh worker session s)
  unfolding esq_try_fetch_hash_lock
  esq_try_fetch_hash_lock-is_waiting q o ne new mode waits enough =
      let small : ltb lock hash_lock_max ≡ true = ground arith in
      rw at (
        rw small (
          fetch_valid-is_waiting q mode waits enough
            (alloc-Allocation lay fresh session lock xs s q o ne new)))
