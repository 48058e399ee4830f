-- ===== src/HashLock/Unlink.antt =====
-- `esq_hash_lock_release` by a reader behind the head of the queue, and the stale tail pointer that
-- it leaves where the reader was the last.
use esq.Base.{
  ℕ, zero, suc, ◌<◌, ◌≡◌, ◌≢◌, refl, ap, sym, ◌∙◌, true, false, List, [], ◌∷◌, ◌++◌, arith, ltb,
  ◌==◌, length, All, Mem, pos, store, store_self, store_ne,
}
use esq.Chain.{null, has, Distinct, Chain, last, has-append, has-last, Chain-store}
use esq.HashLock.State.{lock_read, hash_lock_max, esq_ok, Store, ok}
use esq.HashLock.{Layout, good_to_go, release_loop, release_queue, esq_hash_lock_release}
use esq.HashLock.Queue.{IsQueue, readers, holders}
use esq.HashLock.Release.{freed_ctx, free-freed_ctx}

-- Readers of other sessions.
abbrev pub OtherReaders : Store → ℕ → List ℕ → Type 0
OtherReaders s session ys = All (λ y. (s.ctx_state y ≡ lock_read) × (s.ctx_session y ≢ session)) ys

-- The memory after `pp->next = p->next`.
abbrev pub unlinked : ℕ → ℕ → Store → Store
unlinked pp p s = record s { ctx_next = store s.ctx_next pp (s.ctx_next p) }

module _ (lay : Layout) (lock session p : ℕ) (zs : List ℕ) (s : Store)
    (owner : s.ctx_session p ≡ session) (reader : s.ctx_state p ≡ lock_read) (pn : p ≢ null) where
  -- The loop walks over the readers of other sessions to `p`.
  release_loop-unlinked :
      (fuel pp x : ℕ) (ys : List ℕ)
      → pp ≢ null
      → Chain s.ctx_next x (ys ++ p ∷ zs)
      → OtherReaders s session ys
      → length ys < fuel
      → release_loop lay fuel lock session pp x s ≡ good_to_go lay p (unlinked (last pp ys) p s)
  unfolding release_loop
  release_loop-unlinked zero pp x ys n c o f = absurd (omega arith)
  release_loop-unlinked (suc fuel) pp x [] n (e, m, c) o f =
      let nn : (p == null) ≡ false = ground arith in
      let t0 : (s.ctx_state p == lock_read) ≡ true = ground arith in
      let t1 : (s.ctx_session p == session) ≡ true = ground arith in
      let t2 : (pp == null) ≡ false = ground arith in rw e (rw (nn, t0, t1, t2) refl)
  release_loop-unlinked (suc fuel) pp x (y ∷ ys) n (e, m, c) ((r, a), o) f =
      let nn : (y == null) ≡ false = ground arith in
      let t0 : (s.ctx_state y == lock_read) ≡ true = ground arith in
      let t1 : (s.ctx_session y == session) ≡ false = ground arith in
      rw e (rw (nn, t0, t1) (release_loop-unlinked fuel y (s.ctx_next y) ys m c o (omega arith)))

-- Taking `p` out of the chain.
Chain-unlink :
    (next : Mem) (x y p : ℕ) (ys zs : List ℕ)
    → Distinct ((y ∷ ys) ++ p ∷ zs)
    → Chain next x ((y ∷ ys) ++ p ∷ zs)
    → Chain (store next (last y ys) (next p)) x ((y ∷ ys) ++ zs)
Chain-unlink next x y p [] zs (h, d) (e, n, (f, m, c)) = (
  e,
  n,
  rw (store_self next y (next p)) (Chain-store next y (next p) (next p) zs (ground arith) c),
)
Chain-unlink next x y p (w ∷ ys) zs (h, d) (e, n, c) = (
  e,
  n,
  rw (store_ne next (last w ys) (next p) y apart) (Chain-unlink next (next y) w p ys zs d c),
)
  where
    found : has (last w ys) ((w ∷ ys) ++ p ∷ zs) ≡ true
    found = ground (arith, has-append (last w ys) (w ∷ ys) (p ∷ zs), has-last w ys)

    apart : y ≢ last w ys
    apart eq = cc (ap (λ (a : ℕ). has a ((w ∷ ys) ++ p ∷ zs)) eq, found, h)

Distinct-unlink :
    (ys : List ℕ) (p : ℕ) (zs : List ℕ) → Distinct (ys ++ p ∷ zs) → Distinct (ys ++ zs)
Distinct-unlink [] p zs (h, d) = d
Distinct-unlink (y ∷ ys) p zs (h, d) =
    (ground (arith, has-append y ys (p ∷ zs), has-append y ys zs), Distinct-unlink ys p zs d)

last-append : (x : ℕ) (ys : List ℕ) (z : ℕ) (zs : List ℕ) → last x (ys ++ z ∷ zs) ≡ last z zs
last-append x [] z zs = refl
last-append x (y ∷ ys) z zs = last-append y ys z zs

readers-unlink :
    (state : Mem) (ys : List ℕ) (p : ℕ) (zs : List ℕ) (a : ℕ)
    → All (λ y. state y ≡ lock_read) ys
    → state p ≡ lock_read
    → a ≢ p
    → has a (readers state (ys ++ zs)) ≡ has a (readers state (ys ++ p ∷ zs))
readers-unlink state [] p zs a o r n = ground arith
readers-unlink state (y ∷ ys) p zs a (h, o) r n = ground (arith, readers-unlink state ys p zs a)

holders-unlink :
    (state : Mem) (y : ℕ) (ys : List ℕ) (p : ℕ) (zs : List ℕ) (a : ℕ)
    → All (λ w. state w ≡ lock_read) (y ∷ ys)
    → state p ≡ lock_read
    → a ≢ p
    → has a (holders state ((y ∷ ys) ++ zs)) ≡ has a (holders state ((y ∷ ys) ++ p ∷ zs))
holders-unlink state y ys p zs a (h, o) r n = ground (arith, readers-unlink state ys p zs a o r n)

module _ (lay : Layout) (fuel session lock y : ℕ) (ys : List ℕ) (p : ℕ) (zs : List ℕ) (s : Store)
    (range : lock < hash_lock_max) (q : IsQueue s lock ((y ∷ ys) ++ p ∷ zs))
    (others : OtherReaders s session (y ∷ ys)) (reader : s.ctx_state p ≡ lock_read)
    (owner : s.ctx_session p ≡ session) (ne : session ≢ null) (pn : p ≢ null)
    (enough : length (y ∷ ys) < fuel) where
  -- The memory after the release.
  abbrev pub left : Store
  left = freed_ctx lay p (unlinked (last y ys) p s)

  pub release-left : esq_hash_lock_release lay fuel session (pos lock) s ≡ ok esq_ok left
  unfolding esq_hash_lock_release release_queue
  release-left =
      let small : ltb lock hash_lock_max ≡ true = ground arith in
      let e : s.head lock ≡ y = q.chain.0 in
      let nn : (y == null) ≡ false = ground (arith, q.chain.1) in
      let t0 : (s.ctx_state y == lock_read) ≡ true = ground (arith, others.0) in
      rw small (rw e (rw (nn, t0) (walk fuel enough)))
    where
      end : good_to_go lay p (unlinked (last y ys) p s) ≡ ok esq_ok left
      end =
          unfold good_to_go in
          rw (free-freed_ctx lay p (unlinked (last y ys) p s) λ h. ne (sym owner ∙ h)) refl

      walk :
          (f : ℕ) → length (y ∷ ys) < f → release_loop lay f lock session null y s ≡ ok esq_ok left
      walk zero h = absurd (omega arith)
      walk (suc f) h =
          let nn : (y == null) ≡ false = ground (arith, q.chain.1) in
          let t0 : (s.ctx_state y == lock_read) ≡ true = ground (arith, others.0) in
          let t1 : (s.ctx_session y == session) ≡ false = ground (arith, others.0) in
          rw (nn, t0, t1)
            (release_loop-unlinked lay lock session p zs s owner reader pn f y (s.ctx_next y) ys
                q.chain.1 q.chain.2 others.1 (omega arith)
              ∙ end)

  pub left-Chain : Chain left.ctx_next (left.head lock) ((y ∷ ys) ++ zs)
  left-Chain = Chain-unlink s.ctx_next (s.head lock) y p ys zs q.distinct q.chain

pub reading :
    (s : Store) (session : ℕ) (ys : List ℕ)
    → OtherReaders s session ys
    → All (λ w. s.ctx_state w ≡ lock_read) ys
reading s session [] o = tt
reading s session (y ∷ ys) (o, os) = (o.0, reading s session ys os)

-- The release by a reader behind other readers, with a context behind it, returns ESQ_OK, takes
-- exactly its context off the queue, wakes nobody, and leaves every other context a holder or not
-- as it was.
pub esq_hash_lock_release_middle_reader :
    (lay : Layout) (fuel session lock y : ℕ) (ys : List ℕ) (p z : ℕ) (zs : List ℕ) (s : Store)
    → lock < hash_lock_max
    → IsQueue s lock ((y ∷ ys) ++ p ∷ z ∷ zs)
    → OtherReaders s session (y ∷ ys)
    → s.ctx_state p ≡ lock_read
    → s.ctx_session p ≡ session
    → session ≢ null
    → p ≢ null
    → length (y ∷ ys) < fuel
    → (t : Store) × (esq_hash_lock_release lay fuel session (pos lock) s ≡ ok esq_ok t)
      × IsQueue t lock ((y ∷ ys) ++ z ∷ zs)
      × (t.wake_head ≡ s.wake_head)
      × (t.next_in_wake ≡ s.next_in_wake)
      × ((a : ℕ)
          → a ≢ p
          → has a (holders t.ctx_state ((y ∷ ys) ++ z ∷ zs))
            ≡ has a (holders s.ctx_state ((y ∷ ys) ++ p ∷ z ∷ zs)))
esq_hash_lock_release_middle_reader lay fuel session lock y ys p z zs s range q others reader owner
      ne pn enough =
    (
      left lay fuel session lock y ys p (z ∷ zs) s range q others reader owner ne pn enough,
      release-left lay fuel session lock y ys p (z ∷ zs) s range q others reader owner ne pn enough,
      record {
        chain =
            left-Chain lay fuel session lock y ys p (z ∷ zs) s range q others reader owner ne pn
              enough;
        distinct = Distinct-unlink (y ∷ ys) p (z ∷ zs) q.distinct;
        tail_last = q.tail_last ∙ last-append y ys p (z ∷ zs) ∙ sym (last-append y ys z zs);
      },
      refl,
      refl,
      λ a n.
          holders-unlink s.ctx_state y ys p (z ∷ zs) a (reading s session (y ∷ ys) others) reader n,
    )
