-- ===== src/HashLock/Exclusion.antt =====
-- Mutual exclusion by `esq_try_fetch_hash_lock`.
use esq.Base.{
  ℕ, ◌<◌, ◌≡◌, ◌≢◌, refl, ap, inl, inr, sym, ◌∙◌, true, false, List, [], ◌∷◌, ◌++◌, arith,
  Bool-cases, length, Mem, pos,
}
use esq.Chain.{null, has, Distinct}
use esq.HashLock.State.{lock_read, hash_lock_max, Code, esq_ok, Store, Outcome, ok}
use esq.HashLock.{Layout, esq_try_fetch_hash_lock}
use esq.HashLock.Queue.{IsQueue, readers, holders}
use esq.HashLock.Fetch.{IsMode, readers-read, readers-append}
use esq.HashLock.Alloc.{Owned}
use esq.HashLock.Grant.{is_waiting, Fetched, esq_try_fetch_hash_lock-Fetched}

-- Two different holders of a lock are both readers.
holders-exclusive :
    (state : Mem) (xs : List ℕ) (a b : ℕ)
    → Distinct xs
    → has a (holders state xs) ≡ true
    → has b (holders state xs) ≡ true
    → a ≢ b
    → (state a ≡ lock_read) × (state b ≡ lock_read)
holders-exclusive state [] a b d h k n = cc
holders-exclusive state (x ∷ xs) a b d h k n =
    ground (arith, readers-read state xs a, readers-read state xs b, ap state)

holders-append :
    (state : Mem) (xs : List ℕ) (c a : ℕ)
    → has a (holders state xs) ≡ true
    → has a (holders state (xs ++ c ∷ [])) ≡ true
holders-append state [] c a h = cc
holders-append state (x ∷ xs) c a h = ground (arith, readers-append state xs c a)

readers_cong :
    (f g : Mem) (c : ℕ) (xs : List ℕ)
    → ((a : ℕ) → a ≢ c → f a ≡ g a)
    → has c xs ≡ false
    → readers f xs ≡ readers g xs
readers_cong f g c [] e h = refl
readers_cong f g c (x ∷ xs) e h =
    let same : f x ≡ g x = e x (ground arith) in
    rw (same, readers_cong f g c xs e (ground arith)) refl

holders_cong :
    (f g : Mem) (c : ℕ) (xs : List ℕ)
    → ((a : ℕ) → a ≢ c → f a ≡ g a)
    → has c xs ≡ false
    → holders f xs ≡ holders g xs
holders_cong f g c [] e h = refl
holders_cong f g c (x ∷ xs) e h =
    let same : f x ≡ g x = e x (ground arith) in
    rw (same, readers_cong f g c xs e (ground arith)) refl

-- A queued context is another than one that is not queued.
ne_of_has :
    (state : Mem) (xs : List ℕ) (a c : ℕ)
    → has a (holders state xs) ≡ true
    → has c xs ≡ false
    → a ≢ c
ne_of_has state [] a c h k = cc
ne_of_has state (x ∷ xs) a c h k = ground (arith, has-readers state xs a, ap (λ (b : ℕ). has b xs))
  where
    has-readers : (f : Mem) (ys : List ℕ) (b : ℕ) → has b (readers f ys) ≡ true → has b ys ≡ true
    has-readers f [] b m = m
    has-readers f (y ∷ ys) b m = ground (arith, has-readers f ys b)

granted :
    (lay : Layout) (fresh : ℕ) (s : Store) (lock session a : ℕ) (xs : List ℕ) (r : Outcome Code)
    (s' : Store)
    → Fetched lay fresh s lock session xs r
    → r ≡ ok esq_ok s'
    → has a (holders s.ctx_state xs) ≡ true
    → (s.ctx_state a ≡ lock_read) × (s.session_state session ≡ lock_read)
granted lay fresh s lock session a xs r s' (inl (e, _, _)) h held = cc (e, h)
granted lay fresh s lock session a xs r s' (inr (c, t, e, q, new, owner, mode, same, src)) h held =
    let ne : a ≢ c = ne_of_has s.ctx_state xs a c held new in
    let held' : has a (holders t.ctx_state (xs ++ c ∷ [])) ≡ true =
      holders-append t.ctx_state xs c a
        (rw (holders_cong t.ctx_state s.ctx_state c xs same new) held) in
    elim (Bool-cases (has c (holders t.ctx_state (xs ++ c ∷ [])))) [
      | inr no_grant ↦ cc (e, h, no_grant)
      | inl grant ↦
          let (ra, rc) =
            holders-exclusive t.ctx_state (xs ++ c ∷ []) a c q.distinct held' grant ne in
          (sym (same a ne) ∙ ra, sym mode ∙ rc)
    ]

-- A fetch is granted at once only where it conflicts with nobody who holds the lock: if it returns
-- ESQ_OK, every context that held the lock before is a reader, and so is the session that asked.
pub esq_try_fetch_hash_lock-exclusive :
    (lay : Layout) (fuel fresh worker session lock : ℕ) (xs : List ℕ) (s s' : Store) (a : ℕ)
    → s.session_idx session ≡ pos lock
    → lock < hash_lock_max
    → IsQueue s lock xs
    → Owned s xs
    → session ≢ null
    → has fresh xs ≡ false
    → IsMode (s.session_state session)
    → is_waiting s session xs ≡ false
    → length xs < fuel
    → esq_try_fetch_hash_lock lay fuel false fresh worker session s ≡ ok esq_ok s'
    → has a (holders s.ctx_state xs) ≡ true
    → (s.ctx_state a ≡ lock_read) × (s.session_state session ≡ lock_read)
esq_try_fetch_hash_lock-exclusive lay fuel fresh worker session lock xs s s' a at range q o ne new
      mode free enough =
    granted lay fresh s lock session a xs _ s' (
      esq_try_fetch_hash_lock-Fetched lay fuel fresh worker session lock xs s at range q o ne new
        mode free enough)
