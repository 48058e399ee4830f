-- ===== src/HeadMatch/Border.antt =====
-- The part of the items around the middle with the same byte.
use esq.Base.{
  ℕ, zero, suc, ◌+◌, ◌-◌, ◌/◌, ◌<◌, ◌≤◌, ◌≡◌, ◌≢◌, ◌⊎◌, refl, sym, ap, ◌∙◌, inl, inr, arith, leb,
  ◌==◌, Bool-cases,
}
use esq.HeadMatch.{Hmt, byte}
use esq.HeadMatch.Compile.{border_down, border_up, find_start, find_end}

-- From `b` to `s` the byte is `c`, and it is not at the place before `b`, or `b` is the lowest place.
abbrev pub Down : Hmt → ℕ → ℕ → ℕ → ℕ → ℕ → Type 0
Down pt depth c low s b =
    (low ≤ b)
    × (b ≤ s)
    × ((i : ℕ) → b ≤ i → i ≤ s → byte pt i depth ≡ c)
    × ((b ≡ low) ⊎ ((low < b) × (byte pt (b - 1) depth ≢ c)))

abbrev pub Up : Hmt → ℕ → ℕ → ℕ → ℕ → ℕ → Type 0
Up pt depth c top s b =
    (b ≤ top)
    × (s ≤ b)
    × ((i : ℕ) → s ≤ i → i ≤ b → byte pt i depth ≡ c)
    × ((b ≡ top) ⊎ ((b < top) × (byte pt (b + 1) depth ≢ c)))

only : (pt : Hmt) (depth s i : ℕ) → s ≤ i → i ≤ s → byte pt i depth ≡ byte pt s depth
only pt depth s i a b = ap (λ k. byte pt k depth) (let same : i ≡ s = omega arith in same)

border_down-Down :
    (pt : Hmt) (depth c low n s : ℕ)
    → low + n ≡ s
    → byte pt s depth ≡ c
    → Down pt depth c low s (border_down pt depth c n s)
unfolding border_down
border_down-Down pt depth c low zero s e at =
    (omega arith, omega arith, (λ i a b. only pt depth s i a b ∙ at), inl (omega arith))
border_down-Down pt depth c low (suc n) s e at = elim (Bool-cases (byte pt (s - 1) depth == c)) [
  | inl hit ↦
      let (a, b, all, end) =
        border_down-Down pt depth c low n (s - 1) (omega arith) (ground arith) in
      rw hit (
        a,
        omega arith,
        (λ i f g. elim (Bool-cases (i == s)) [
          | inl last ↦ let same : i ≡ s = ground arith in ap (λ k. byte pt k depth) same ∙ at
          | inr ne ↦ all i f (ground arith)
        ]),
        end,
      )
  | inr miss ↦ rw miss (
    omega arith,
    omega arith,
    (λ i a b. only pt depth s i a b ∙ at),
    inr (omega arith, ground arith),
  )
]

border_up-Up :
    (pt : Hmt) (depth c top n s : ℕ)
    → s + n ≡ top
    → byte pt s depth ≡ c
    → Up pt depth c top s (border_up pt depth c n s)
unfolding border_up
border_up-Up pt depth c top zero s e at =
    (omega arith, omega arith, (λ i a b. only pt depth s i a b ∙ at), inl (omega arith))
border_up-Up pt depth c top (suc n) s e at = elim (Bool-cases (byte pt (s + 1) depth == c)) [
  | inl hit ↦
      let (a, b, all, end) = border_up-Up pt depth c top n (s + 1) (omega arith) (ground arith) in
      rw hit (
        a,
        omega arith,
        (λ i f g. elim (Bool-cases (i == s)) [
          | inl first ↦ let same : i ≡ s = ground arith in ap (λ k. byte pt k depth) same ∙ at
          | inr ne ↦ all i (ground arith) g
        ]),
        end,
      )
  | inr miss ↦ rw miss (
    omega arith,
    omega arith,
    (λ i a b. only pt depth s i a b ∙ at),
    inr (omega arith, ground arith),
  )
]

-- The borders of the part.
pub record IsCenter (pt : Hmt) (depth s e bs be : ℕ) : Type 0 where
  pub start_le : s ≤ bs
  pub end_le : be ≤ e
  pub holds : bs ≤ be
  pub middle : ℕ
  pub middle_from : bs ≤ middle
  pub middle_to : middle ≤ be
  pub middle_end : middle ≡ (s + e) / 2
  pub all : (i : ℕ) → bs ≤ i → i ≤ be → byte pt i depth ≡ byte pt bs depth
  pub before : (bs ≡ s) ⊎ ((s < bs) × (byte pt (bs - 1) depth ≢ byte pt bs depth))
  pub after : (be ≡ e) ⊎ ((be < e) × (byte pt (be + 1) depth ≢ byte pt bs depth))

pub find_border-IsCenter :
    (pt : Hmt) (depth s e : ℕ)
    → s ≤ e
    → IsCenter pt depth s e (find_start pt depth s e) (find_end pt depth s e)
unfolding find_start find_end
find_border-IsCenter pt depth s e h =
    let m = (s + e) / 2 in
    let c = byte pt m depth in
    let (a, b, down, before) = border_down-Down pt depth c s (m - s) m (omega arith) refl in
    let (f, g, up, after) = border_up-Up pt depth c e (e - m) m (omega arith) refl in
    let own : byte pt (find_start pt depth s e) depth ≡ c =
      down (find_start pt depth s e) (omega arith) b in
    record {
      start_le = a;
      end_le = f;
      holds = omega (arith, b, g);
      middle = m;
      middle_from = b;
      middle_to = g;
      middle_end = refl;
      all = λ i p q. elim (Bool-cases (leb i m)) [
        | inl low ↦ down i p (ground arith) ∙ sym own
        | inr high ↦ up i (ground arith) q ∙ sym own
      ];
      before = elim before [ inl x ↦ inl x | inr (x, y) ↦ inr (x, λ z. y (z ∙ own)) ];
      after = elim after [ inl x ↦ inl x | inr (x, y) ↦ inr (x, λ z. y (z ∙ own)) ];
    }
