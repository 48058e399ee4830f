-- ===== src/Scan/Integer/Sound.antt =====
-- Which buffers hold a number, and which number.
use esq.Base.{
  ℕ, suc, ◌+◌, ◌*◌, ◌-◌, ◌≤◌, ◌≡◌, ◌↔◌, refl, sym, ap, subst, ◌∙◌, inl, inr, true, false, some,
  List, [], ◌∷◌, ◌++◌, arith, ltb, Bool-cases, length, All,
}
use esq.Scan.{blank, digit}
use esq.Scan.Decimal.{value_from, value_from-le, EndsNumber, digit_not_blank, digit_value}
use esq.Scan.Integer.{number_limit, s_start, s_number, integer_loop, get_integer_1000000}

-- The buffer begins with more digits of a number of which `v` is read.
pub record MoreAt (v : ℕ) (buf : List ℕ) (n r : ℕ) : Type 0 where
  pub digits : List ℕ
  pub behind : List ℕ
  pub splits : buf ≡ digits ++ behind
  pub are_digits : All (λ c. digit c ≡ true) digits
  pub ends : EndsNumber behind
  pub size : n ≡ length digits
  pub value : r ≡ value_from v digits
  pub small : r ≤ number_limit

-- The buffer begins with blanks and a number `r` of one or more digits, with a blank or nothing
-- behind it, `n` bytes in all up to there.
pub record NumberAt (buf : List ℕ) (n r : ℕ) : Type 0 where
  pub blanks : List ℕ
  pub first : ℕ
  pub digits : List ℕ
  pub behind : List ℕ
  pub splits : buf ≡ blanks ++ (first ∷ (digits ++ behind))
  pub are_blank : All (λ c. blank c ≡ true) blanks
  pub first_digit : digit first ≡ true
  pub are_digits : All (λ c. digit c ≡ true) digits
  pub ends : EndsNumber behind
  pub size : n ≡ length blanks + suc (length digits)
  pub value : r ≡ value_from (first - b'0') digits
  pub small : r ≤ number_limit

loop-MoreAt :
    (buf : List ℕ) (i v m r : ℕ)
    → v ≤ number_limit
    → integer_loop buf s_number i v ≡ some (m, r)
    → (n : ℕ) × (m ≡ i + n) × MoreAt v buf n r
unfolding integer_loop
loop-MoreAt [] i v m r small h =
    let e : m ≡ i = cc h in
    (
      0,
      omega arith,
      record {
        digits = [];
        behind = [];
        splits = refl;
        are_digits = tt;
        ends = tt;
        size = refl;
        value = cc h;
        small = subst (λ k. k ≤ number_limit) (cc h) small;
      },
    )
loop-MoreAt (c ∷ buf) i v m r small h = elim (Bool-cases (digit c)) [
  | inl d ↦
      let h1 = rw d at h in
      elim (Bool-cases (ltb number_limit (v * 10 + (c - b'0')))) [
        | inl big ↦ absurd (cc (rw big at h1))
        | inr fits ↦
            let (n, e, more) =
              loop-MoreAt buf (i + 1) (v * 10 + (c - b'0')) m r (ground arith) (rw fits at h1) in
            (
              suc n,
              omega arith,
              record {
                digits = c ∷ more.digits;
                behind = more.behind;
                splits = ap (λ xs. c ∷ xs) more.splits;
                are_digits = (d, more.are_digits);
                ends = more.ends;
                size = ap suc more.size;
                value = more.value;
                small = more.small;
              },
            )
      ]
  | inr d ↦
      let h1 = rw d at h in
      elim (Bool-cases (blank c)) [
        | inl b ↦
            let h2 = rw b at h1 in
            let e : m ≡ i = cc h2 in
            (
              0,
              omega arith,
              record {
                digits = [];
                behind = c ∷ buf;
                splits = refl;
                are_digits = tt;
                ends = b;
                size = refl;
                value = cc h2;
                small = subst (λ k. k ≤ number_limit) (cc h2) small;
              },
            )
        | inr b ↦ absurd (cc (rw b at h1))
      ]
]

loop-NumberAt :
    (buf : List ℕ) (i m r : ℕ)
    → integer_loop buf s_start i 0 ≡ some (m, r)
    → (n : ℕ) × (m ≡ i + n) × NumberAt buf n r
unfolding integer_loop
loop-NumberAt [] i m r h = absurd (cc h)
loop-NumberAt (c ∷ buf) i m r h = elim (Bool-cases (digit c)) [
  | inl d ↦
      let at_most : c - b'0' ≤ 9 = digit_value c d in
      let (n, e, more) = loop-MoreAt buf (i + 1) (c - b'0') m r (omega arith) (rw d at h) in
      (
        suc n,
        omega arith,
        record {
          blanks = [];
          first = c;
          digits = more.digits;
          behind = more.behind;
          splits = ap (λ xs. c ∷ xs) more.splits;
          are_blank = tt;
          first_digit = d;
          are_digits = more.are_digits;
          ends = more.ends;
          size = omega (arith, more.size);
          value = more.value;
          small = more.small;
        },
      )
  | inr d ↦
      let h1 = rw d at h in
      elim (Bool-cases (blank c)) [
        | inl b ↦
            let (n, e, number) = loop-NumberAt buf (i + 1) m r (rw b at h1) in
            (
              suc n,
              omega arith,
              record {
                blanks = c ∷ number.blanks;
                first = number.first;
                digits = number.digits;
                behind = number.behind;
                splits = ap (λ xs. c ∷ xs) number.splits;
                are_blank = (b, number.are_blank);
                first_digit = number.first_digit;
                are_digits = number.are_digits;
                ends = number.ends;
                size = omega (arith, number.size);
                value = number.value;
                small = number.small;
              },
            )
        | inr b ↦ absurd (cc (rw b at h1))
      ]
]

loop_digits :
    (ds behind : List ℕ) (i v : ℕ)
    → All (λ c. digit c ≡ true) ds
    → EndsNumber behind
    → value_from v ds ≤ number_limit
    → integer_loop (ds ++ behind) s_number i v ≡ some (i + length ds, value_from v ds)
unfolding integer_loop
loop_digits [] [] i v h ends small = let e : i + 0 ≡ i = omega arith in rw e refl
loop_digits [] (c ∷ r) i v h ends small =
    let e : i + 0 ≡ i = omega arith in rw (e, digit_not_blank c ends, ends) refl
loop_digits (c ∷ cs) behind i v (d, h) ends small =
    let e : i + suc (length cs) ≡ i + 1 + length cs = omega arith in
    let fits : ltb number_limit (v * 10 + (c - b'0')) ≡ false =
      ground (arith, value_from-le (v * 10 + (c - b'0')) cs) in
    rw (d, fits, e) (loop_digits cs behind (i + 1) _ h ends small)

loop_blanks :
    (bs rest : List ℕ) (i : ℕ)
    → All (λ c. blank c ≡ true) bs
    → integer_loop (bs ++ rest) s_start i 0 ≡ integer_loop rest s_start (i + length bs) 0
unfolding integer_loop
loop_blanks [] rest i h = let e : i + 0 ≡ i = omega arith in rw e refl
loop_blanks (c ∷ cs) rest i (b, h) =
    let e : i + suc (length cs) ≡ i + 1 + length cs = omega arith in
    rw (digit_not_blank c b, b, e) (loop_blanks cs rest (i + 1) h)

-- `get_integer_1000000` gives a length and a value exactly where the buffer begins with blanks and a
-- decimal number of at most 10000000 with a blank or the end behind it. The length is that of the
-- blanks and the digits, and the value the number's.
pub get_integer_1000000-NumberAt :
    (buf : List ℕ) (n r : ℕ) → (get_integer_1000000 buf ≡ some (n, r)) ↔ NumberAt buf n r
unfolding get_integer_1000000 integer_loop
get_integer_1000000-NumberAt buf n r = (sound, complete)
  where
    sound : integer_loop buf s_start 0 0 ≡ some (n, r) → NumberAt buf n r
    sound h =
        let (k, e, number) = loop-NumberAt buf 0 n r h in
        let same : n ≡ k = omega arith in subst (λ j. NumberAt buf j r) (sym same) number

    number_run :
        (a : NumberAt buf n r)
        → integer_loop (a.first ∷ (a.digits ++ a.behind)) s_start (0 + length a.blanks) 0
          ≡ some (length a.blanks + suc (length a.digits), value_from (a.first - b'0') a.digits)
    number_run a =
        let there : 0 + length a.blanks + 1 + length a.digits
            ≡ length a.blanks + suc (length a.digits) =
          omega arith in
        rw (a.first_digit, sym there)
          (loop_digits a.digits a.behind (0 + length a.blanks + 1) _ a.are_digits a.ends
            (subst (λ k. k ≤ number_limit) a.value a.small))

    complete : NumberAt buf n r → integer_loop buf s_start 0 0 ≡ some (n, r)
    complete a =
        let run = loop_blanks a.blanks (a.first ∷ (a.digits ++ a.behind)) 0 a.are_blank in
        rw (a.splits, a.size, a.value) (run ∙ number_run a)
