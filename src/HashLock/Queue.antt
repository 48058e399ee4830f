-- ===== src/HashLock/Queue.antt =====
-- The queue of a hash lock as a list of contexts, and who of it holds the lock.
use esq.Base.{
  ℕ, zero, suc, ◌<◌, ◌≡◌, ◌≢◌, refl, inl, inr, Bool, true, false, List, [], ◌∷◌, ◌++◌, arith, ◌==◌,
  if◌then◌else◌, Bool-cases, all, length, Mem, store,
}
use esq.Chain.{null, has, Distinct, Chain, last, Distinct-concat, Chain-concat_at}
use esq.HashLock.State.{lock_read, Code, esq_ok, error_busy, Store, ok, ◌>>◌}
use esq.HashLock.{
  ctx_join_tail, join_session, try_read_loop, esq_try_read_hash_lock, esq_try_write_hash_lock,
}

-- The tail pointer is at the last node. Of an empty queue it can be anything.
abbrev pub LastIs : ℕ → List ℕ → Type 0
LastIs t [] = Unit
LastIs t (x ∷ xs) = t ≡ last x xs

-- The contexts queued at a lock, in order.
pub record IsQueue (s : Store) (lock : ℕ) (xs : List ℕ) : Type 0 where
  pub chain : Chain s.ctx_next (s.head lock) xs
  pub distinct : Distinct xs
  pub tail_last : LastIs (s.tail lock) xs

-- The readers before the first writer.
abbrev pub readers : Mem → List ℕ → List ℕ
readers state [] = []
readers state (x ∷ xs) =
    let rest = readers state xs in if state x == lock_read then x ∷ rest else []

-- Who holds the lock: the readers at the front, or the writer at the head.
abbrev pub holders : Mem → List ℕ → List ℕ
holders state [] = []
holders state (x ∷ xs) = if state x == lock_read then x ∷ readers state xs else x ∷ []

abbrev pub all_read : Mem → List ℕ → Bool
all_read state xs = all (λ p. state p == lock_read) xs

-- The memory after CTX_JOIN_TAIL.
abbrev pub joined_tail : ℕ → ℕ → Store → Store
joined_tail lock ctx s = record s {
  ctx_next = store (store s.ctx_next (s.tail lock) ctx) ctx null;
  tail = store s.tail lock ctx;
}

-- The memory after CTX_JOIN_AS_THE_FIRST.
abbrev pub joined_first : ℕ → ℕ → Store → Store
joined_first lock ctx s = record s {
  head = store s.head lock ctx;
  tail = store s.tail lock ctx;
  ctx_next = store s.ctx_next ctx null;
}

-- The memory after JOIN_SESSION.
abbrev pub joined_session : ℕ → Store → Store
joined_session ctx s = record s {
  next_in_session = store s.next_in_session ctx (s.session_list (s.ctx_session ctx));
  session_list = store s.session_list (s.ctx_session ctx) ctx;
}

-- The memory after a context has joined the queue `xs`.
abbrev pub queued : ℕ → ℕ → List ℕ → Store → Store
queued lock ctx [] s = joined_session ctx (joined_first lock ctx s)
queued lock ctx (x ∷ xs) s = joined_session ctx (joined_tail lock ctx s)

last-ne-null :
    (next : Mem) (p x : ℕ) (xs : List ℕ) → Chain next p (x ∷ xs) → (last x xs == null) ≡ false
last-ne-null next p x [] (e, n, f) = ground arith
last-ne-null next p x (y ∷ ys) (e, n, f) = last-ne-null next (next x) y ys f

last-concat : (x : ℕ) (xs : List ℕ) (c : ℕ) → last x (xs ++ c ∷ []) ≡ c
last-concat x [] c = refl
last-concat x (y ∷ ys) c = last-concat y ys c

pub queued-IsQueue :
    (lock ctx : ℕ) (xs : List ℕ) (s : Store)
    → IsQueue s lock xs
    → ctx ≢ null
    → has ctx xs ≡ false
    → IsQueue (queued lock ctx xs s) lock (xs ++ ctx ∷ [])
unfolding store
queued-IsQueue lock ctx [] s q n h = record {
  chain = (ground arith, n, ground arith);
  distinct = (refl, tt);
  tail_last = ground arith;
}
queued-IsQueue lock ctx (x ∷ xs) s q n h = record {
  chain =
      Chain-concat_at s.ctx_next (s.tail lock) (s.head lock) x xs ctx q.tail_last n q.distinct h
        q.chain;
  distinct = Distinct-concat (x ∷ xs) ctx q.distinct h;
  tail_last = ground (arith, last-concat x xs ctx);
}

join_tail-queued :
    (lock ctx x : ℕ) (xs : List ℕ) (s : Store) (r : Code)
    → IsQueue s lock (x ∷ xs)
    → (do ctx_join_tail lock ctx; join_session ctx; ok r) s ≡ ok r (queued lock ctx (x ∷ xs) s)
unfolding ctx_join_tail join_session
join_tail-queued lock ctx x xs s r q =
    let nn : (s.tail lock == null) ≡ false =
      rw q.tail_last (last-ne-null s.ctx_next (s.head lock) x xs q.chain) in
    rw nn refl

try_read_loop-queued :
    (fuel lock ctx p x : ℕ) (xs ys : List ℕ) (s : Store)
    → IsQueue s lock (x ∷ xs)
    → Chain s.ctx_next p ys
    → length ys < fuel
    → try_read_loop fuel lock ctx p s
      ≡ ok (if all_read s.ctx_state ys then esq_ok else error_busy) (queued lock ctx (x ∷ xs) s)
unfolding try_read_loop
try_read_loop-queued zero lock ctx p x xs ys s q c f = absurd (omega arith)
try_read_loop-queued (suc fuel) lock ctx p x xs [] s q c f =
    let end : (p == null) ≡ true = ground arith in
    rw end (join_tail-queued lock ctx x xs s esq_ok q)
try_read_loop-queued (suc fuel) lock ctx p x xs (y ∷ ys) s q (e, n, c) f =
    let more : (p == null) ≡ false = ground arith in
    rw more (
      rw e (elim (Bool-cases (s.ctx_state y == lock_read)) [
        | inl reader ↦ rw reader (try_read_loop-queued fuel lock ctx _ x xs ys s q c (omega arith))
        | inr writer ↦ rw writer (join_tail-queued lock ctx x xs s error_busy q)
      ]))

-- A reader joins the queue, and is granted the lock where nobody but readers was queued.
pub try_read-queued :
    (fuel lock ctx : ℕ) (xs : List ℕ) (s : Store)
    → IsQueue s lock xs
    → length xs < fuel
    → esq_try_read_hash_lock fuel lock ctx s
      ≡ ok (if all_read s.ctx_state xs then esq_ok else error_busy) (queued lock ctx xs s)
unfolding esq_try_read_hash_lock
try_read-queued fuel lock ctx [] s q f =
    let empty : (s.head lock == null) ≡ true = ground (arith, q.chain) in rw empty refl
try_read-queued fuel lock ctx (x ∷ xs) s q f =
    let busy : (s.head lock == null) ≡ false = ground (arith, q.chain) in
    rw busy (try_read_loop-queued fuel lock ctx (s.head lock) x xs (x ∷ xs) s q q.chain f)

abbrev pub is_nil : List ℕ → Bool
is_nil [] = true
is_nil (x ∷ xs) = false

-- A writer joins the queue, and is granted the lock where nobody was queued.
pub try_write-queued :
    (lock ctx : ℕ) (xs : List ℕ) (s : Store)
    → IsQueue s lock xs
    → esq_try_write_hash_lock lock ctx s
      ≡ ok (if is_nil xs then esq_ok else error_busy) (queued lock ctx xs s)
unfolding esq_try_write_hash_lock
try_write-queued lock ctx [] s q =
    let empty : (s.head lock == null) ≡ true = ground (arith, q.chain) in rw empty refl
try_write-queued lock ctx (x ∷ xs) s q =
    let busy : (s.head lock == null) ≡ false = ground (arith, q.chain) in
    rw busy (join_tail-queued lock ctx x xs s error_busy q)
