-- ===== src/HashLock/Stale.antt =====
-- The release by the last reader of a queue of readers: the tail pointer stays at the context that
-- has gone, and the next context to join is lost.
use esq.Base.{
  ℕ, zero, suc, ◌<◌, ◌≡◌, ◌≢◌, refl, subst, sym, ◌∙◌, true, false, List, [], ◌∷◌, ◌++◌, append-nil,
  arith, ◌==◌, length, All, pos, store,
}
use esq.Chain.{null, has, Distinct, Chain, last, has-append, Chain-store}
use esq.HashLock.State.{lock_read, hash_lock_max, esq_ok, Store, ok}
use esq.HashLock.{
  Layout, ctx_join_tail, join_session, try_read_loop, esq_try_read_hash_lock, esq_hash_lock_release,
}
use esq.HashLock.Queue.{IsQueue, joined_tail, joined_session}
use esq.HashLock.Unlink.{OtherReaders, left, release-left, left-Chain, reading}

try_read_loop_granted :
    (fuel lock c x : ℕ) (ws : List ℕ) (s : Store)
    → s.tail lock ≢ null
    → Chain s.ctx_next x ws
    → All (λ w. s.ctx_state w ≡ lock_read) ws
    → length ws < fuel
    → try_read_loop fuel lock c x s ≡ ok esq_ok (joined_session c (joined_tail lock c s))
unfolding try_read_loop ctx_join_tail join_session
try_read_loop_granted zero lock c x ws s n k r f = absurd (omega arith)
try_read_loop_granted (suc fuel) lock c x [] s n k r f =
    let end : (x == null) ≡ true = ground arith in
    let nn : (s.tail lock == null) ≡ false = ground arith in rw end (rw nn refl)
try_read_loop_granted (suc fuel) lock c x (w ∷ ws) s n (e, m, k) (r, rs) f =
    let more : (w == null) ≡ false = ground arith in
    let test : (s.ctx_state w == lock_read) ≡ true = ground arith in
    rw e
      (rw (more, test) (try_read_loop_granted fuel lock c (s.ctx_next w) ws s n k rs (omega arith)))

has-prefix : (p : ℕ) (ys : List ℕ) → Distinct (ys ++ p ∷ []) → has p ys ≡ false
has-prefix p [] d = refl
has-prefix p (y ∷ ys) (h, d) = ground (arith, has-append y ys (p ∷ []), has-prefix p ys d)

-- After the release by the last of several readers, the next reader to ask for the lock is told
-- ESQ_OK, yet the queue that is reached from the head is that of the readers before it: it does not
-- hold the new context, so that the lock does not know of this holder.
pub esq_hash_lock_release_last_reader :
    (lay : Layout) (fuel session lock y : ℕ) (ys : List ℕ) (p c : ℕ) (s : Store)
    → lock < hash_lock_max
    → IsQueue s lock ((y ∷ ys) ++ p ∷ [])
    → OtherReaders s session (y ∷ ys)
    → s.ctx_state p ≡ lock_read
    → s.ctx_session p ≡ session
    → session ≢ null
    → p ≢ null
    → length (y ∷ ys) < fuel
    → has c (y ∷ ys) ≡ false
    → (t : Store) × (u : Store) × (esq_hash_lock_release lay fuel session (pos lock) s
        ≡ ok esq_ok t)
      × (esq_try_read_hash_lock fuel lock c t ≡ ok esq_ok u)
      × Chain u.ctx_next (u.head lock) (y ∷ ys)
unfolding esq_try_read_hash_lock
esq_hash_lock_release_last_reader lay fuel session lock y ys p c s range q others reader owner ne pn
      enough new =
    let t = left lay fuel session lock y ys p [] s range q others reader owner ne pn enough in
    let chain : Chain t.ctx_next (t.head lock) (y ∷ ys) =
      rw append-nil at
        (left-Chain lay fuel session lock y ys p [] s range q others reader owner ne pn enough) in
    let tail : s.tail lock ≡ p = q.tail_last ∙ last-concat y ys in
    let nn : (s.head lock == null) ≡ false = ground (arith, q.chain.0, q.chain.1) in
    let out : has (s.tail lock) (y ∷ ys) ≡ false =
      subst (λ a. has a (y ∷ ys) ≡ false) (sym tail) (has-prefix p (y ∷ ys) q.distinct) in
    (
      t,
      joined_session c (joined_tail lock c t),
      release-left lay fuel session lock y ys p [] s range q others reader owner ne pn enough,
      rw nn (
          try_read_loop_granted fuel lock c (s.head lock) (y ∷ ys) t (λ h. pn (sym tail ∙ h)) chain
            (reading s session (y ∷ ys) others) enough),
      Chain-store (store t.ctx_next (s.tail lock) c) c null (s.head lock) (y ∷ ys) new
          (Chain-store t.ctx_next (s.tail lock) c (s.head lock) (y ∷ ys) out chain),
    )
  where
    last-concat : (x : ℕ) (xs : List ℕ) → last x (xs ++ p ∷ []) ≡ p
    last-concat x [] = refl
    last-concat x (w ∷ ws) = last-concat w ws
