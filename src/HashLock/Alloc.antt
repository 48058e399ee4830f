-- ===== src/HashLock/Alloc.antt =====
-- `esq_alloc_hash_lock_ctx` and `esq_free_hash_lock_ctx`.
use esq.Base.{
  ℕ, zero, suc, ◌+◌, ◌≡◌, ◌≢◌, ◌≤◌, ◌<◌, ◌⊎◌, refl, ap, sym, ◌∙◌, inl, inr, false, List, [], ◌∷◌,
  arith, ◌==◌, Bool-cases, All, store_self, store_ne,
}
use esq.Chain.{null, has, Chain-store}
use esq.HashLock.State.{Store, Outcome, ok}
use esq.HashLock.{Layout, slot, alloc_loop, esq_alloc_hash_lock_ctx}
use esq.HashLock.Queue.{IsQueue}

-- A queued context belongs to a session.
abbrev pub Owned : Store → List ℕ → Type 0
Owned s xs = All (λ x. s.ctx_session x ≢ null) xs

-- The context `p` is handed out to the session, and the queue `xs` is as it was.
pub record Allocated (s s' : Store) (lock session p : ℕ) (xs : List ℕ) : Type 0 where
  pub ne_null : p ≢ null
  pub new : has p xs ≡ false
  pub queue : IsQueue s' lock xs
  pub owner : s'.ctx_session p ≡ session
  pub other_sessions : (a : ℕ) → a ≢ p → s'.ctx_session a ≡ s.ctx_session a
  pub other_states : (a : ℕ) → a ≢ p → s'.ctx_state a ≡ s.ctx_state a
  pub same_state : s'.session_state ≡ s.session_state

-- None of the `n` contexts in the session from `i` on is free.
abbrev pub NoneFree : Layout → Store → ℕ → ℕ → ℕ → Type 0
NoneFree lay s session n i = (j : ℕ) → i ≤ j → j < i + n → s.ctx_session (slot lay session j) ≢ null

-- Where a context comes from: it is one of those `n` and was free, or, where none of them is, it is
-- what `malloc` gave.
abbrev pub Source : Layout → Store → ℕ → ℕ → ℕ → ℕ → ℕ → Type 0
Source lay s session n i fresh p =
    ((j : ℕ) × (i ≤ j) × (j < i + n) × (p ≡ slot lay session j) × (s.ctx_session p ≡ null))
    ⊎ ((p ≡ fresh) × NoneFree lay s session n i)

abbrev pub Allocation : Layout → Store → ℕ → ℕ → ℕ → ℕ → List ℕ → ℕ → Outcome ℕ → Type 0
Allocation lay s lock session n i xs fresh r =
    ((r ≡ ok null s) × (fresh ≡ null) × NoneFree lay s session n i)
    ⊎ ((p : ℕ) × (s' : Store) × (r ≡ ok p s')
        × Allocated s s' lock session p xs
        × Source lay s session n i fresh p)

NoneFree-suc :
    (lay : Layout) (s : Store) (session n i : ℕ)
    → s.ctx_session (slot lay session i) ≢ null
    → NoneFree lay s session n (i + 1)
    → NoneFree lay s session (suc n) i
NoneFree-suc lay s session n i here rest j low high = elim (Bool-cases (j == i)) [
  | inl e ↦
      let same : j ≡ i = ground arith in
      λ free. here (sym (ap (λ k. s.ctx_session (slot lay session k)) same) ∙ free)
  | inr ne ↦ rest j (ground arith) (omega arith)
]

Allocation-suc :
    (lay : Layout) (s : Store) (lock session n i : ℕ) (xs : List ℕ) (fresh : ℕ) (r : Outcome ℕ)
    → s.ctx_session (slot lay session i) ≢ null
    → Allocation lay s lock session n (i + 1) xs fresh r
    → Allocation lay s lock session (suc n) i xs fresh r
Allocation-suc lay s lock session n i xs fresh r here (inl (e, oom, rest)) =
    inl (e, oom, NoneFree-suc lay s session n i here rest)
Allocation-suc lay s lock session n i xs fresh r here
      (inr (p, s', e, a, inl (j, low, high, at, free))) =
    inr (p, s', e, a, inl (j, omega arith, omega arith, at, free))
Allocation-suc lay s lock session n i xs fresh r here (inr (p, s', e, a, inr (at, rest))) =
    inr (p, s', e, a, inr (at, NoneFree-suc lay s session n i here rest))

-- A context whose session pointer is NULL is not queued.
not_queued :
    (s : Store) (p : ℕ) (xs : List ℕ) → Owned s xs → s.ctx_session p ≡ null → has p xs ≡ false
not_queued s p [] o e = refl
not_queued s p (x ∷ xs) (n, o) e = ground (arith, not_queued s p xs o e, ap s.ctx_session)

alloc_loop-Allocation :
    (lay : Layout) (n i fresh session lock : ℕ) (xs : List ℕ) (s : Store)
    → IsQueue s lock xs
    → Owned s xs
    → session ≢ null
    → has fresh xs ≡ false
    → Allocation lay s lock session n i xs fresh (alloc_loop lay n i fresh session s)
unfolding alloc_loop
alloc_loop-Allocation lay zero i fresh session lock xs s q o ne new =
    elim (Bool-cases (fresh == null)) [
      | inl oom ↦ rw oom (inl (refl, ground arith, λ j low high. absurd (omega arith)))
      | inr got ↦ rw got (
          inr (
            fresh,
            _,
            refl,
            record {
              ne_null = ground arith;
              new = new;
              queue = record {
                chain = Chain-store s.ctx_next fresh 0 (s.head lock) xs new q.chain;
                distinct = q.distinct;
                tail_last = q.tail_last;
              };
              owner = store_self s.ctx_session fresh session;
              other_sessions = λ a h. store_ne s.ctx_session fresh session a h;
              other_states = λ a h. store_ne s.ctx_state fresh 0 a h;
              same_state = refl;
            },
            inr (refl, λ j low high. absurd (omega arith)),
          ))
    ]
alloc_loop-Allocation lay (suc n) i fresh session lock xs s q o ne new =
    elim (Bool-cases (s.ctx_session (slot lay session i) == null)) [
      | inr used ↦ rw used (
          Allocation-suc lay s lock session n i xs fresh _ (ground arith)
            (alloc_loop-Allocation lay n (i + 1) fresh session lock xs s q o ne new))
      | inl free ↦ rw free (
          inr (
            slot lay session i,
            _,
            refl,
            record {
              ne_null = omega arith;
              new = not_queued s (slot lay session i) xs o (ground arith);
              queue = record { chain = q.chain; distinct = q.distinct; tail_last = q.tail_last };
              owner = store_self s.ctx_session (slot lay session i) session;
              other_sessions = λ a h. store_ne s.ctx_session (slot lay session i) session a h;
              other_states = λ a h. refl;
              same_state = refl;
            },
            inl (i, omega arith, omega arith, refl, ground arith),
          ))
    ]

pub alloc-Allocation :
    (lay : Layout) (fresh session lock : ℕ) (xs : List ℕ) (s : Store)
    → IsQueue s lock xs
    → Owned s xs
    → session ≢ null
    → has fresh xs ≡ false
    → Allocation lay s lock session 3 0 xs fresh (esq_alloc_hash_lock_ctx lay fresh session s)
unfolding esq_alloc_hash_lock_ctx
alloc-Allocation lay fresh session lock xs s = alloc_loop-Allocation lay 3 0 fresh session lock xs s
