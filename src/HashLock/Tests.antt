-- ===== src/HashLock/Tests.antt =====
-- The theorems on the hash locks at small queues, and runs of the code.
use esq.Base.{
  ℕ, ◌≡◌, ◌≢◌, refl, inl, inr, false, [], ◌∷◌, arith, ◌==◌, if◌then◌else◌, Mem, pos, store,
}
use esq.Chain.{has, Chain}
use esq.HashLock.State.{lock_read, Code, esq_ok, error_busy, Store, Outcome, ok, crash}
use esq.HashLock.{Layout, esq_try_fetch_hash_lock, esq_try_read_hash_lock, esq_hash_lock_release}
use esq.HashLock.Queue.{IsQueue, holders}
use esq.HashLock.Wake.{Wakes}
use esq.HashLock.Grant.{
  Fetched, Repeated, esq_try_fetch_hash_lock-Fetched, esq_try_fetch_hash_lock-is_waiting,
}
use esq.HashLock.Exclusion.{esq_try_fetch_hash_lock-exclusive}
use esq.HashLock.Release.{
  Released, esq_hash_lock_release_writer, esq_hash_lock_release_head_reader,
  esq_hash_lock_release_sole_reader,
}
use esq.HashLock.Unlink.{esq_hash_lock_release_middle_reader}
use esq.HashLock.Stale.{esq_hash_lock_release_last_reader}

abbrev layout : Layout
layout = record {
  ctx_offset = 40;
  ctx_size = 64;
  session_size = 400;
  ctx_size_pos = omega arith;
  fits = omega arith;
}

abbrev at : ℕ → ℕ → Mem
at p v q = if q == p then v else 0

-- Contexts 8, 9 and 10 of the sessions 2000, 3000 and 4000, of which the first `n` are queued at
-- lock 5. Context 8 has the mode `m`, and 10 the mode `k`.
abbrev scene : ℕ → ℕ → (next : Mem) → ℕ → Store
scene m k next t = record {
  ctx_session = λ p. if p == 8 then 2000 else if p == 9 then 3000 else if p == 10 then 4000 else 0;
  ctx_state = λ p. if p == 8 then m else if p == 10 then k else 0;
  ctx_idx = λ _. 5;
  ctx_worker = λ _. 70;
  ctx_next = next;
  next_in_session = λ _. 0;
  next_in_wake = λ _. 0;
  session_idx = λ _. pos 5;
  session_state = λ _. 0;
  session_list = λ _. 0;
  head = at 5 8;
  tail = at 5 t;
  wake_head = λ _. 0;
  wake_tail = λ _. 0;
  freed = [];
}

abbrev one : Mem
one = λ _. 0

abbrev two : Mem
two = at 8 9

abbrev three : Mem
three = λ q. if q == 8 then 9 else if q == 9 then 10 else 0

one-IsQueue : (m k : ℕ) → IsQueue (scene m k one 8) 5 (8 ∷ [])
one-IsQueue m k = record { chain = omega arith; distinct = (refl, tt); tail_last = refl }

two-IsQueue : (m k : ℕ) → IsQueue (scene m k two 9) 5 (8 ∷ 9 ∷ [])
two-IsQueue m k = record {
  chain = (refl, omega arith, (refl, omega arith, refl));
  distinct = (refl, (refl, tt));
  tail_last = refl;
}

three-IsQueue : (m k : ℕ) → IsQueue (scene m k three 10) 5 (8 ∷ 9 ∷ 10 ∷ [])
three-IsQueue m k = record {
  chain = (refl, omega arith, (refl, omega arith, (refl, omega arith, refl)));
  distinct = (refl, (refl, (refl, tt)));
  tail_last = refl;
}

no-Wakes : (m k : ℕ) (next : Mem) (t : ℕ) → Wakes (scene m k next t) (λ _. [])
no-Wakes m k next t w = record { chain = refl; distinct = tt; tail_last = tt; own = λ a h. cc }

-- A reader joins two readers.
fetch_reader :
    Fetched layout 77
      (scene 0 0 two 9)
      5
      1000
      (8 ∷ 9 ∷ [])
      (esq_try_fetch_hash_lock layout 7 false 77 70 1000 (scene 0 0 two 9))
fetch_reader =
    esq_try_fetch_hash_lock-Fetched layout 7 77 70 1000 5 (8 ∷ 9 ∷ []) (scene 0 0 two 9) refl
      (omega arith) (two-IsQueue 0 0) (omega arith) (omega arith) refl (inl refl) refl (omega arith)

-- The memory after a call that returns.
abbrev after : Outcome Code → Store
after (ok c s) = s
after r = scene 0 0 one 8

abbrev fetch_run : Outcome Code
fetch_run = esq_try_fetch_hash_lock layout 7 false 77 70 1000 (scene 0 0 two 9)

fetch_granted : fetch_run ≡ ok esq_ok (after fetch_run)
unfolding esq_try_fetch_hash_lock store
fetch_granted = refl

fetch_shared :
    ((scene 0 0 two 9).ctx_state 9 ≡ lock_read) × ((scene 0 0 two 9).session_state 1000 ≡ lock_read)
fetch_shared =
    esq_try_fetch_hash_lock-exclusive layout 7 77 70 1000 5 (8 ∷ 9 ∷ []) (scene 0 0 two 9)
      (after fetch_run) 9 refl (omega arith) (two-IsQueue 0 0) (omega arith) (omega arith) refl
      (inl refl) refl (omega arith) fetch_granted refl

-- A reader behind a writer waits.
fetch_waits :
    esq_try_fetch_hash_lock layout 7 false 77 70 1000 (scene 1 0 one 8)
    ≡ ok error_busy (after (esq_try_fetch_hash_lock layout 7 false 77 70 1000 (scene 1 0 one 8)))
unfolding esq_try_fetch_hash_lock store
fetch_waits = refl

-- The reader 9 asks again.
fetch_again :
    Repeated layout 77
      (scene 0 0 two 9)
      3000
      (esq_try_fetch_hash_lock layout 7 false 77 70 3000 (scene 0 0 two 9))
fetch_again =
    esq_try_fetch_hash_lock-is_waiting layout 7 77 70 3000 5 (8 ∷ 9 ∷ []) (scene 0 0 two 9) refl
      (omega arith) (two-IsQueue 0 0) (omega arith) (omega arith) refl (inl refl) refl (omega arith)

-- The writer 8 leaves, and the reader 9 is woken; the writer 10 waits on.
release_writer :
    (t : Store) × (esq_hash_lock_release layout 7 2000 (pos 5) (scene 1 1 three 10) ≡ ok esq_ok t)
    × Released (scene 1 1 three 10) t 5 8 (9 ∷ 10 ∷ []) (λ _. []) (9 ∷ [])
release_writer =
    esq_hash_lock_release_writer layout 7 2000 5 8 (9 ∷ 10 ∷ []) (λ _. []) (scene 1 1 three 10)
      (omega arith) (three-IsQueue 1 1) refl (omega arith) (inl refl, (inr refl, tt))
      (refl, (refl, tt)) (no-Wakes 1 1 three 10) (omega arith) refl

-- The reader 8 leaves; the reader 9 holds the lock already.
release_first_reader :
    (t : Store) × (esq_hash_lock_release layout 7 2000 (pos 5) (scene 0 1 three 10) ≡ ok esq_ok t)
    × Released (scene 0 1 three 10) t 5 8 (9 ∷ 10 ∷ []) (λ _. []) []
release_first_reader =
    esq_hash_lock_release_head_reader layout 7 2000 5 8 9 (10 ∷ []) (λ _. []) (scene 0 1 three 10)
      (omega arith) (three-IsQueue 0 1) refl (omega arith) refl (inl refl, (inr refl, tt))
      (refl, (refl, tt)) (no-Wakes 0 1 three 10) (omega arith)

release_middle_reader :
    (t : Store) × (esq_hash_lock_release layout 7 3000 (pos 5) (scene 0 1 three 10) ≡ ok esq_ok t)
    × IsQueue t 5 (8 ∷ 10 ∷ [])
    × (t.wake_head ≡ (λ _. 0))
    × (t.next_in_wake ≡ (λ _. 0))
    × ((a : ℕ)
        → a ≢ 9
        → has a (holders t.ctx_state (8 ∷ 10 ∷ []))
          ≡ has a (holders (scene 0 1 three 10).ctx_state (8 ∷ 9 ∷ 10 ∷ [])))
release_middle_reader =
    esq_hash_lock_release_middle_reader layout 7 3000 5 8 [] 9 10 [] (scene 0 1 three 10)
      (omega arith) (three-IsQueue 0 1) ((refl, omega arith), tt) refl refl (omega arith)
      (omega arith) (omega arith)

release_last_reader :
    (t : Store) × (u : Store) × (esq_hash_lock_release layout 7 3000 (pos 5) (scene 0 0 two 9)
      ≡ ok esq_ok t)
    × (esq_try_read_hash_lock 7 5 10 t ≡ ok esq_ok u)
    × Chain u.ctx_next (u.head 5) (8 ∷ [])
release_last_reader =
    esq_hash_lock_release_last_reader layout 7 3000 5 8 [] 9 10 (scene 0 0 two 9) (omega arith)
      (two-IsQueue 0 0) ((refl, omega arith), tt) refl refl (omega arith) (omega arith)
      (omega arith) refl

release_sole_reader : esq_hash_lock_release layout 7 2000 (pos 5) (scene 0 0 one 8) ≡ crash
release_sole_reader =
    esq_hash_lock_release_sole_reader layout 7 2000 5 8 (scene 0 0 one 8) (omega arith)
      (one-IsQueue 0 0) refl refl (omega arith)
