-- ===== src/HashLock/State.antt =====
-- session/internal.h and session/hash_lock.c: the memory that the hash locks work on, and the ways
-- in which a call ends.
use esq.Base.{ℕ, List, Mem, ℤ, ◌==◌, if◌then◌else◌}
use esq.Chain.{null}

-- ESQ_SESSION_HASH_LOCK_READ and ESQ_SESSION_HASH_LOCK_WRITE. The fields are shorts, so other
-- numbers can stand there too.
abbrev pub lock_read : ℕ
lock_read = 0

abbrev pub lock_write : ℕ
lock_write = 1

abbrev pub hash_lock_max : ℕ
hash_lock_max = 128

-- The values of public/esq.h that these functions return.
pub data Code : Type 0 where
  esq_ok error_param error_memory error_close error_busy error_dead_lock : Code

-- `esq_hash_lock_ctx_t` at each address, the lock fields of the session at each address, the locks
-- by index, the wake-up list of each worker, and what was given to `free`.
pub record Store : Type 0 where
  pub ctx_session : Mem
  pub ctx_state : Mem
  pub ctx_idx : Mem
  pub ctx_worker : Mem
  pub ctx_next : Mem
  pub next_in_session : Mem
  pub next_in_wake : Mem
  pub session_idx : ℕ → ℤ
  pub session_state : Mem
  pub session_list : Mem
  pub head : Mem
  pub tail : Mem
  pub wake_head : Mem
  pub wake_tail : Mem
  pub freed : List ℕ

-- A call returns, or `esq_design_error` ends the process, or NULL is dereferenced.
pub data Outcome (A : Type 0) : Type 0 where
  ok : A → Store → Outcome A
  design_error : Outcome A
  crash : Outcome A
  out_of_fuel : Outcome A

abbrev pub Cmd : Type 0 → Type 0
Cmd A = Store → Outcome A

abbrev pub pure : {A : Type 0} → A → Cmd A
pure = ok

module _ {A B : Type 0} where
  abbrev pub and_then : Outcome A → (A → Cmd B) → Outcome B
  and_then (ok a s) k = k a s
  and_then design_error k = design_error
  and_then crash k = crash
  and_then out_of_fuel k = out_of_fuel

  infixl 5 ◌>>=◌ ◌>>◌
  abbrev pub ◌>>=◌ : Cmd A → (A → Cmd B) → Cmd B
  m >>= k = λ s. and_then (m s) k

  abbrev pub ◌>>◌ : Cmd A → Cmd B → Cmd B
  m >> n = m >>= λ _. n

abbrev pub exit : {A : Type 0} → Cmd A
exit s = design_error

-- A change of the memory.
abbrev pub put : (Store → Store) → Cmd (Unit {0})
put f s = ok tt (f s)

-- `p->…` is about to be read or written.
abbrev pub deref : ℕ → Cmd (Unit {0})
deref p s = if p == null then crash else ok tt s

abbrev pub get : {A : Type 0} → (Store → A) → Cmd A
get f s = ok (f s) s
