-- ===== src/HashLock.antt =====
-- session/hash_lock.c, with `esq_alloc_hash_lock_ctx` and `esq_free_hash_lock_ctx` of
-- session/session.c. The spin lock of a hash lock is held over each change of its queue, so a call
-- is one step here. Loops run on fuel, of which a caller gives more than the queue has nodes.
pub mod State
pub mod Queue
pub mod Fetch
pub mod Alloc
pub mod Grant
pub mod Exclusion
pub mod Wake
pub mod Release
pub mod Unlink
pub mod Stale
mod Tests
use esq.Base.{
  ℕ, zero, suc, ◌+◌, ◌*◌, ◌≤◌, ◌<◌, Bool, true, false, ◌&&◌, ◌||◌, ◌∷◌, ℤ, pos, negsuc, ltb, ◌==◌,
  if◌then◌else◌, store,
}
use esq.Chain.{null}
use State.{
  lock_read, lock_write, hash_lock_max, Code, esq_ok, error_param, error_memory, error_close,
  error_busy, error_dead_lock, Store, Outcome, ok, crash, out_of_fuel, Cmd, pure, ◌>>=◌, ◌>>◌, exit,
  put, deref, get,
}

-- Where the compiler puts the array `hash_lock_ctx` in a session, and the sizes of the structures.
pub record Layout : Type 0 where
  pub ctx_offset : ℕ
  pub ctx_size : ℕ
  pub session_size : ℕ
  pub ctx_size_pos : 0 < ctx_size
  pub fits : ctx_offset + 3 * ctx_size ≤ session_size

-- `session->hash_lock_ctx + i`
abbrev pub slot : Layout → ℕ → ℕ → ℕ
slot lay s i = s + lay.ctx_offset + i * lay.ctx_size

-- CTX_JOIN_TAIL
unfoldable pub ctx_join_tail : ℕ → ℕ → Cmd (Unit {0})
ctx_join_tail lock ctx = do
  t ← get λ s. s.tail lock
  deref t
  put λ s. record s {
    ctx_next = store (store s.ctx_next t ctx) ctx null;
    tail = store s.tail lock ctx;
  }

-- CTX_JOIN_AS_THE_FIRST
unfoldable pub ctx_join_as_the_first : ℕ → ℕ → Cmd (Unit {0})
ctx_join_as_the_first lock ctx = put λ s. record s {
  head = store s.head lock ctx;
  tail = store s.tail lock ctx;
  ctx_next = store s.ctx_next ctx null;
}

-- JOIN_SESSION
unfoldable pub join_session : ℕ → Cmd (Unit {0})
join_session ctx = put λ s. record s {
  next_in_session = store s.next_in_session ctx (s.session_list (s.ctx_session ctx));
  session_list = store s.session_list (s.ctx_session ctx) ctx;
}

-- The loop of `esq_try_read_hash_lock`, at node `p`.
unfoldable pub try_read_loop : ℕ → ℕ → ℕ → ℕ → Cmd Code
unfolding ctx_join_tail join_session
try_read_loop zero lock ctx p = λ s. out_of_fuel
try_read_loop (suc fuel) lock ctx p = λ s.
    let rest = try_read_loop fuel lock ctx (s.ctx_next p) s in
    if p == null
    then (do ctx_join_tail lock ctx; join_session ctx; pure esq_ok) s
    else if s.ctx_state p == lock_read
    then rest
    else (do ctx_join_tail lock ctx; join_session ctx; pure error_busy) s

unfoldable pub esq_try_read_hash_lock : ℕ → ℕ → ℕ → Cmd Code
unfolding try_read_loop ctx_join_as_the_first join_session
esq_try_read_hash_lock fuel lock ctx = do
  h ← get λ s. s.head lock
  if h == null
      then (do ctx_join_as_the_first lock ctx; join_session ctx; pure esq_ok)
      else try_read_loop fuel lock ctx h

unfoldable pub esq_try_write_hash_lock : ℕ → ℕ → Cmd Code
unfolding ctx_join_tail ctx_join_as_the_first join_session
esq_try_write_hash_lock lock ctx = do
  h ← get λ s. s.head lock
  if h == null
      then (do ctx_join_as_the_first lock ctx; join_session ctx; pure esq_ok)
      else (do ctx_join_tail lock ctx; join_session ctx; pure error_busy)

-- `esq_hash_lock_check_dup`: the process ends where the context, or another of its session, is
-- queued already.
unfoldable pub check_dup_loop : ℕ → ℕ → ℕ → Cmd Code
check_dup_loop zero ctx p = λ s. out_of_fuel
check_dup_loop (suc fuel) ctx p = λ s.
    let rest = check_dup_loop fuel ctx (s.ctx_next p) s in
    if p == null
    then ok esq_ok s
    else if ctx == p || s.ctx_session p == s.ctx_session ctx
    then exit s
    else rest

unfoldable pub esq_hash_lock_check_dup : ℕ → ℕ → ℕ → Cmd Code
unfolding check_dup_loop
esq_hash_lock_check_dup fuel lock ctx s = check_dup_loop fuel ctx (s.head lock) s

-- `esq_alloc_hash_lock_ctx`: the first free slot of the session from slot `i`, or else what
-- `malloc` returns, cleared.
unfoldable pub alloc_loop : Layout → ℕ → ℕ → ℕ → ℕ → Cmd ℕ
alloc_loop lay zero i fresh session = do
  if fresh == null then pure null else (do
    put λ s. record s {
      ctx_session = store s.ctx_session fresh session;
      ctx_state = store s.ctx_state fresh 0;
      ctx_idx = store s.ctx_idx fresh 0;
      ctx_worker = store s.ctx_worker fresh 0;
      ctx_next = store s.ctx_next fresh 0;
      next_in_session = store s.next_in_session fresh 0;
      next_in_wake = store s.next_in_wake fresh 0;
    }
    pure fresh)
alloc_loop lay (suc n) i fresh session = λ s.
    let rest = alloc_loop lay n (i + 1) fresh session s in
    let p = slot lay session i in
    if s.ctx_session p == null
    then ok p (record s { ctx_session = store s.ctx_session p session })
    else rest

unfoldable pub esq_alloc_hash_lock_ctx : Layout → ℕ → ℕ → Cmd ℕ
unfolding alloc_loop
esq_alloc_hash_lock_ctx lay fresh session = alloc_loop lay 3 0 fresh session

-- The address tells a slot of the session from a context that `malloc` gave.
unfoldable pub esq_free_hash_lock_ctx : Layout → ℕ → Cmd (Unit {0})
esq_free_hash_lock_ctx lay ctx = do
  session ← get λ s. s.ctx_session ctx
  if session == null then exit else (do
    put λ s. record s { ctx_session = store s.ctx_session ctx null }
    if ltb ctx session || ltb (session + lay.session_size) ctx
        then put (λ s. record s { freed = ctx ∷ s.freed })
        else pure tt)

-- The queue operation that the session asks for, under the spin lock.
unfoldable pub fetch_locked : Layout → ℕ → ℕ → ℕ → ℕ → Cmd Code
unfolding esq_hash_lock_check_dup esq_try_read_hash_lock esq_try_write_hash_lock
fetch_locked lay fuel state lock ctx =
    if state == lock_read
    then (do esq_hash_lock_check_dup fuel lock ctx; esq_try_read_hash_lock fuel lock ctx)
    else if state == lock_write
    then (do esq_hash_lock_check_dup fuel lock ctx; esq_try_write_hash_lock lock ctx)
    else exit

-- `fresh` is what `malloc` returns if it is called, `worker` the worker that runs the session.
unfoldable pub fetch_valid : Layout → ℕ → Bool → ℕ → ℕ → ℕ → ℕ → Cmd Code
unfolding esq_alloc_hash_lock_ctx fetch_locked
fetch_valid lay fuel stopping fresh worker session idx = if stopping then pure error_close else (do
  ctx ← esq_alloc_hash_lock_ctx lay fresh session
  if ctx == null then pure error_memory else (do
    put λ s. record s {
      ctx_state = store s.ctx_state ctx (s.session_state session);
      ctx_idx = store s.ctx_idx ctx idx;
      ctx_worker = store s.ctx_worker ctx worker;
    }
    state ← get λ s. s.session_state session
    fetch_locked lay fuel state idx ctx))

-- The range check of the index.
abbrev pub with_idx : ℤ → (ℕ → Cmd Code) → Cmd Code
with_idx (pos n) k = if ltb n hash_lock_max then k n else exit
with_idx (negsuc n) k = exit

unfoldable pub esq_try_fetch_hash_lock : Layout → ℕ → Bool → ℕ → ℕ → ℕ → Cmd Code
unfolding fetch_valid
esq_try_fetch_hash_lock lay fuel stopping fresh worker session = do
  idx ← get λ s. s.session_idx session
  with_idx idx (fetch_valid lay fuel stopping fresh worker session)

-- HASH_LOCK_CTX_JOIN_WORK_CTX
unfoldable pub join_work_ctx : ℕ → Cmd (Unit {0})
join_work_ctx p = do
  w ← get λ s. s.ctx_worker p
  h ← get λ s. s.wake_head w
  if h == null
      then (put λ s. record s {
        wake_head = store s.wake_head w p;
        wake_tail = store s.wake_tail w p;
        next_in_wake = store s.next_in_wake p null;
      })
      else (do
        t ← get λ s. s.wake_tail w
        deref t
        put λ s. record s {
          next_in_wake = store (store s.next_in_wake t p) p null;
          wake_tail = store s.wake_tail w p;
        })

-- The loop over the readers at the head of the queue.
unfoldable pub wake_readers : ℕ → ℕ → Cmd (Unit {0})
unfolding join_work_ctx
wake_readers zero p = λ s. out_of_fuel
wake_readers (suc fuel) p = λ s.
    let rest = (join_work_ctx p >>= λ _ t. wake_readers fuel (t.ctx_next p) t) s in
    if p == null then ok tt s else if s.ctx_state p == lock_read then rest else ok tt s

unfoldable pub esq_hash_lock_ctx_join_local_wake_up_list : ℕ → ℕ → Cmd (Unit {0})
unfolding wake_readers join_work_ctx
esq_hash_lock_ctx_join_local_wake_up_list fuel lock = do
  p ← get λ s. s.head lock
  st ← get λ s. s.ctx_state p
  if p == null
      then pure tt
      else if st == lock_read
      then wake_readers fuel p
      else if st == lock_write
      then join_work_ctx p
      else exit

-- `__wake_up_other_sessions`
unfoldable pub wake_up_other_sessions : Layout → ℕ → ℕ → ℕ → Cmd Code
unfolding esq_hash_lock_ctx_join_local_wake_up_list esq_free_hash_lock_ctx
wake_up_other_sessions lay fuel lock p = do
  esq_hash_lock_ctx_join_local_wake_up_list fuel lock
  esq_free_hash_lock_ctx lay p
  pure esq_ok

-- `__good_to_go`
unfoldable pub good_to_go : Layout → ℕ → Cmd Code
unfolding esq_free_hash_lock_ctx
good_to_go lay p = do esq_free_hash_lock_ctx lay p; pure esq_ok

-- The head of the queue goes, where it is a reader.
unfoldable pub release_head_reader : Layout → ℕ → ℕ → ℕ → Cmd Code
unfolding wake_up_other_sessions good_to_go
release_head_reader lay fuel lock p = do
  n ← get λ s. s.ctx_next p
  put λ s. record s { head = store s.head lock n }
  deref n
  st ← get λ s. s.ctx_state n
  if st == lock_read then good_to_go lay p else wake_up_other_sessions lay fuel lock p

-- The loop over the readers of `esq_hash_lock_release`, at `p` behind `pp`.
unfoldable pub release_loop : Layout → ℕ → ℕ → ℕ → ℕ → ℕ → Cmd Code
unfolding release_head_reader good_to_go
release_loop lay zero lock session pp p = λ s. out_of_fuel
release_loop lay (suc fuel) lock session pp p = λ s.
    let rest = release_loop lay fuel lock session p (s.ctx_next p) s in
    if p == null
    then exit s
    else if s.ctx_state p == lock_read
    then (if s.ctx_session p == session
        then (if pp == null
            then release_head_reader lay (suc fuel) lock p s
            else good_to_go lay p (record s { ctx_next = store s.ctx_next pp (s.ctx_next p) }))
        else rest)
    else exit s

unfoldable pub release_queue : Layout → ℕ → ℕ → ℕ → Cmd Code
unfolding release_loop wake_up_other_sessions
release_queue lay fuel session lock = do
  p ← get λ s. s.head lock
  st ← get λ s. s.ctx_state p
  owner ← get λ s. s.ctx_session p
  n ← get λ s. s.ctx_next p
  if p == null
      then exit
      else if st == lock_read
      then release_loop lay fuel lock session null p
      else if st == lock_write && owner == session
      then (do
        put λ s. record s { head = store s.head lock n }
        wake_up_other_sessions lay fuel lock p)
      else exit

unfoldable pub esq_hash_lock_release : Layout → ℕ → ℕ → ℤ → Cmd Code
unfolding release_queue
esq_hash_lock_release lay fuel session idx = with_idx idx (release_queue lay fuel session)
