-- ===== src/HashLock/Fetch.antt =====
-- `esq_try_fetch_hash_lock`: who is granted the lock, and what the queue is afterwards.
use esq.Base.{
  ℕ, zero, suc, ◌<◌, ◌≡◌, ◌⊎◌, refl, ap, inl, inr, ◌∙◌, Bool, true, false, ◌||◌, List, [], ◌∷◌,
  ◌++◌, arith, ◌==◌, if◌then◌else◌, Bool-cases, any, length, Mem,
}
use esq.Chain.{null, has, Chain}
use esq.HashLock.State.{lock_read, lock_write, esq_ok, error_busy, Store, ok, design_error}
use esq.HashLock.{Layout, check_dup_loop, esq_hash_lock_check_dup, fetch_locked}
use esq.HashLock.Queue.{
  IsQueue, readers, holders, all_read, is_nil, queued, try_read-queued, try_write-queued,
}

-- The context itself, or another context of its session, is queued.
abbrev pub is_dup : Store → ℕ → List ℕ → Bool
is_dup s ctx ys = any (λ p. ctx == p || s.ctx_session p == s.ctx_session ctx) ys

check_dup_loop-is_dup :
    (fuel ctx p : ℕ) (ys : List ℕ) (s : Store)
    → Chain s.ctx_next p ys
    → length ys < fuel
    → check_dup_loop fuel ctx p s ≡ (if is_dup s ctx ys then design_error else ok esq_ok s)
unfolding check_dup_loop
check_dup_loop-is_dup zero ctx p ys s c f = absurd (omega arith)
check_dup_loop-is_dup (suc fuel) ctx p [] s c f =
    let end : (p == null) ≡ true = ground arith in rw end refl
check_dup_loop-is_dup (suc fuel) ctx p (y ∷ ys) s (e, n, c) f =
    let more : (p == null) ≡ false = ground arith in
    rw more (
      rw e (elim (Bool-cases (ctx == y || s.ctx_session y == s.ctx_session ctx)) [
        | inl dup ↦ rw dup refl
        | inr other ↦ rw other (check_dup_loop-is_dup fuel ctx _ ys s c (omega arith))
      ]))

readers-concat :
    (state : Mem) (xs : List ℕ) (ctx : ℕ)
    → has ctx xs ≡ false
    → (state ctx == lock_read) ≡ true
    → has ctx (readers state (xs ++ ctx ∷ [])) ≡ all_read state xs
readers-concat state [] ctx h r = ground arith
readers-concat state (x ∷ xs) ctx h r = ground (arith, readers-concat state xs ctx)

-- A reader at the end of the queue holds the lock where all before it are readers.
holders-reader :
    (state : Mem) (xs : List ℕ) (ctx : ℕ)
    → has ctx xs ≡ false
    → (state ctx == lock_read) ≡ true
    → has ctx (holders state (xs ++ ctx ∷ [])) ≡ all_read state xs
holders-reader state [] ctx h r = ground arith
holders-reader state (x ∷ xs) ctx h r = ground (arith, readers-concat state xs ctx)

readers-writer :
    (state : Mem) (xs : List ℕ) (ctx : ℕ)
    → has ctx xs ≡ false
    → (state ctx == lock_read) ≡ false
    → has ctx (readers state (xs ++ ctx ∷ [])) ≡ false
readers-writer state [] ctx h r = ground arith
readers-writer state (x ∷ xs) ctx h r = ground (arith, readers-writer state xs ctx)

-- A writer at the end of the queue holds the lock where nobody is before it.
holders-writer :
    (state : Mem) (xs : List ℕ) (ctx : ℕ)
    → has ctx xs ≡ false
    → (state ctx == lock_read) ≡ false
    → has ctx (holders state (xs ++ ctx ∷ [])) ≡ is_nil xs
holders-writer state [] ctx h r = ground arith
holders-writer state (x ∷ xs) ctx h r = ground (arith, readers-writer state xs ctx)

-- What a session asks for.
abbrev pub IsMode : ℕ → Type 0
IsMode m = (m ≡ lock_read) ⊎ (m ≡ lock_write)

module _ (lay : Layout) (fuel lock ctx : ℕ) (xs : List ℕ) (s : Store) (q : IsQueue s lock xs)
    (new : has ctx xs ≡ false) (mode : IsMode (s.ctx_state ctx)) (enough : length xs < fuel) where
  -- A fetch by a session that is not queued joins the queue, and is granted the lock exactly where
  -- the context is then among the holders.
  pub fetch_locked-holders :
      is_dup s ctx xs ≡ false
      → fetch_locked lay fuel (s.ctx_state ctx) lock ctx s
        ≡ ok
            (if has ctx (holders s.ctx_state (xs ++ ctx ∷ [])) then esq_ok else error_busy)
            (queued lock ctx xs s)
  unfolding fetch_locked
  fetch_locked-holders single =
      let checked : esq_hash_lock_check_dup fuel lock ctx s ≡ ok esq_ok s =
        unfold esq_hash_lock_check_dup in
        check_dup_loop-is_dup fuel ctx (s.head lock) xs s q.chain enough ∙ rw single refl in
      elim mode [
        | inl r ↦
            let test : (s.ctx_state ctx == lock_read) ≡ true = ground arith in
            rw (test, checked, holders-reader s.ctx_state xs ctx new test)
              (try_read-queued fuel lock ctx xs s q enough)
        | inr w ↦
            let test : (s.ctx_state ctx == lock_read) ≡ false = ground arith in
            let test' : (s.ctx_state ctx == lock_write) ≡ true = ground arith in
            rw (test, test', checked, holders-writer s.ctx_state xs ctx new test)
              (try_write-queued lock ctx xs s q)
      ]

  -- A session that is queued already ends the process.
  pub fetch_locked-is_dup :
      is_dup s ctx xs ≡ true → fetch_locked lay fuel (s.ctx_state ctx) lock ctx s ≡ design_error
  unfolding fetch_locked
  fetch_locked-is_dup dup =
      let checked : esq_hash_lock_check_dup fuel lock ctx s ≡ design_error =
        unfold esq_hash_lock_check_dup in
        check_dup_loop-is_dup fuel ctx (s.head lock) xs s q.chain enough ∙ rw dup refl in
      elim mode [
        | inl r ↦
            let test : (s.ctx_state ctx == lock_read) ≡ true = ground arith in rw (test, checked)
        | inr w ↦
            let test : (s.ctx_state ctx == lock_read) ≡ false = ground arith in
            let test' : (s.ctx_state ctx == lock_write) ≡ true = ground arith in
            rw (test, test', checked)
      ]

pub readers-read :
    (state : Mem) (xs : List ℕ) (a : ℕ) → has a (readers state xs) ≡ true → state a ≡ lock_read
readers-read state [] a h = cc
readers-read state (x ∷ xs) a h = ground (arith, readers-read state xs a, ap state)

pub readers-append :
    (state : Mem) (xs : List ℕ) (c a : ℕ)
    → has a (readers state xs) ≡ true
    → has a (readers state (xs ++ c ∷ [])) ≡ true
readers-append state [] c a h = cc
readers-append state (x ∷ xs) c a h = ground (arith, readers-append state xs c a)
