-- ===== src/Scan/Ipv4/Dotted.antt =====
-- Dotted addresses, and what the scanner makes of them.
use esq.Base.{
  ℕ, suc, ◌+◌, ◌*◌, ◌-◌, ◌%◌, ◌^◌, ◌<◌, ◌≡◌, refl, ap, ◌∙◌, inl, inr, Bool, true, false, ◌&&◌, none,
  some, List, [], ◌∷◌, ◌++◌, arith, leb, ltb, ltb→lt, ◌==◌, if◌then◌else◌, Bool-cases, length, All,
}
use esq.Scan.{blank, digit}
use esq.Scan.Decimal.{value_from, value_from-le, EndsNumber, digit_not_blank}
use esq.Scan.Ipv4.{
  Statu, s_start, s_number1, s_dot1, s_number2, s_dot2, s_number3, s_dot3, s_number4, Numbers,
  Scanned, more_digit, fetch_number, fetch_dot, finished, ipv4_loop, zeros, get_ipv4_addr,
}

digit_small : (c : ℕ) → digit c ≡ true → c - b'0' < 255
digit_small c h = ground arith

-- Decimal digits, the first apart.
pub record Octet : Type 0 where
  pub first : ℕ
  pub digits : List ℕ
  pub first_digit : digit first ≡ true
  pub are_digits : All (λ c. digit c ≡ true) digits

abbrev pub text : Octet → List ℕ
text o = o.first ∷ o.digits

abbrev pub value : Octet → ℕ
value o = value_from (o.first - b'0') o.digits

module _ (statu : Statu) (put : ℕ → Numbers)
    (more : (v d : ℕ) → fetch_number statu (put v) d ≡ more_digit statu v d put) where
  loop_digits :
      (ds rest : List ℕ) (v i : ℕ)
      → All (λ c. digit c ≡ true) ds
      → v < 255
      → ipv4_loop (ds ++ rest) statu (put v) i ≡ (
          if ltb (value_from v ds) 255
          then ipv4_loop rest statu (put (value_from v ds)) (i + length ds)
          else none)
  unfolding ipv4_loop
  loop_digits [] rest v i h small =
      let e : i + 0 ≡ i = omega arith in
      let fits : ltb v 255 ≡ true = ground arith in rw (e, fits) refl
  loop_digits (c ∷ cs) rest v i (d, h) small =
      rw (d, more v (c - b'0'))
        (elim (Bool-cases (leb 255 (v * 10 + (c - b'0')))) [
          | inl big ↦
              let too_big : ltb (value_from (v * 10 + (c - b'0')) cs) 255 ≡ false =
                ground (arith, value_from-le (v * 10 + (c - b'0')) cs) in
              rw (big, too_big) refl
          | inr fits ↦
              let e : i + suc (length cs) ≡ i + 1 + length cs = omega arith in
              rw (fits, e) (loop_digits cs rest (v * 10 + (c - b'0')) (i + 1) h (ground arith))
        ])

-- An octet, from the state before its first digit.
loop_octet :
    (before statu : Statu) (put : ℕ → Numbers) (a : Numbers)
    → ((d : ℕ) → fetch_number before a d ≡ some (statu, put d))
    → ((v d : ℕ) → fetch_number statu (put v) d ≡ more_digit statu v d put)
    → (o : Octet) (rest : List ℕ) (i : ℕ)
    → ipv4_loop (text o ++ rest) before a i ≡ (
        if ltb (value o) 255
        then ipv4_loop rest statu (put (value o)) (i + length (text o))
        else none)
unfolding ipv4_loop
loop_octet before statu put a first more o rest i =
    let e : i + suc (length o.digits) ≡ i + 1 + length o.digits = omega arith in
    rw (o.first_digit, first (o.first - b'0'), e)
      (loop_digits statu put more o.digits rest (o.first - b'0') (i + 1) o.are_digits
        (digit_small o.first o.first_digit))

loop_dot :
    (statu next : Statu) (a : Numbers) (rest : List ℕ) (i : ℕ)
    → fetch_dot statu ≡ some next
    → ipv4_loop (b'.' ∷ rest) statu a i ≡ ipv4_loop rest next a (i + 1)
unfolding ipv4_loop
loop_dot statu next a rest i h = rw h refl

loop_blanks :
    (bs rest : List ℕ) (a : Numbers) (i : ℕ)
    → All (λ c. blank c ≡ true) bs
    → ipv4_loop (bs ++ rest) s_start a i ≡ ipv4_loop rest s_start a (i + length bs)
unfolding ipv4_loop
loop_blanks [] rest a i h = let e : i + 0 ≡ i = omega arith in rw e refl
loop_blanks (c ∷ cs) rest a i (b, h) =
    let e : i + suc (length cs) ≡ i + 1 + length cs = omega arith in
    let no_dot : (c == b'.') ≡ false = ground arith in
    rw (digit_not_blank c b, no_dot, b, e) (loop_blanks cs rest a (i + 1) h)

loop_end :
    (rest : List ℕ) (a : Numbers) (i : ℕ)
    → EndsNumber rest
    → ipv4_loop rest s_number4 a i ≡ finished a i
unfolding ipv4_loop
loop_end [] a i h = refl
loop_end (c ∷ r) a i b =
    let no_dot : (c == b'.') ≡ false = ground arith in rw (digit_not_blank c b, no_dot, b) refl

-- An octet and the dot behind it.
stage :
    (before statu next : Statu) (put : ℕ → Numbers) (a : Numbers)
    → ((d : ℕ) → fetch_number before a d ≡ some (statu, put d))
    → ((v d : ℕ) → fetch_number statu (put v) d ≡ more_digit statu v d put)
    → fetch_dot statu ≡ some next
    → (o : Octet) (rest : List ℕ) (i : ℕ) (x : Scanned)
    → ipv4_loop rest next (put (value o)) (i + length (text o) + 1) ≡ x
    → ipv4_loop (text o ++ (b'.' ∷ rest)) before a i ≡ (if ltb (value o) 255 then x else none)
stage before statu next put a first more dot o rest i x h =
    loop_octet before statu put a first more o (b'.' ∷ rest) i
    ∙ ap (λ y. if ltb (value o) 255 then y else none)
        (loop_dot statu next (put (value o)) rest (i + length (text o)) dot ∙ h)

stage_end :
    (a : Numbers) (o : Octet) (rest : List ℕ) (i : ℕ)
    → EndsNumber rest
    → ipv4_loop (text o ++ rest) s_dot3 a i ≡ (
        if ltb (value o) 255
        then finished
            (record {
              number1 = a.number1;
              number2 = a.number2;
              number3 = a.number3;
              number4 = value o;
            })
            (i + length (text o))
        else none)
stage_end a o rest i ends =
    loop_octet s_dot3 s_number4
      (λ d. record { number1 = a.number1; number2 = a.number2; number3 = a.number3; number4 = d }) a
      (λ _. refl) (λ _ _. refl) o rest i
    ∙ ap (λ y. if ltb (value o) 255 then y else none) (loop_end rest _ _ ends)

all_four :
    (b1 b2 b3 b4 : Bool) (x y : Scanned)
    → (b1 ≡ true → b2 ≡ true → b3 ≡ true → b4 ≡ true → x ≡ y)
    → (if b1 then (if b2 then (if b3 then (if b4 then x else none) else none) else none) else none)
      ≡ (if b1 && b2 && b3 && b4 then y else none)
all_four true true true true x y h = h refl refl refl refl
all_four true true true false x y h = refl
all_four true true false b4 x y h = refl
all_four true false b3 b4 x y h = refl
all_four false b2 b3 b4 x y h = refl

abbrev found : ℕ → ℕ → Scanned
found n a = some (n, a)

found_eq : (n n' a a' : ℕ) → n ≡ n' → a ≡ a' → found n a ≡ found n' a'
found_eq n n' a a' e f = ap (λ k. found k a) e ∙ ap (λ k. found n' k) f

address :
    (o p q r : ℕ)
    → o < 255
    → p < 255
    → q < 255
    → r < 255
    → (o * 2 ^ 24 + p * 2 ^ 16 + q * 2 ^ 8 + r) % 2 ^ 32 ≡ ((o * 256 + p) * 256 + q) * 256 + r
address o p q r ho hp hq hr = omega arith

-- The text of an address.
abbrev pub dotted : Octet → Octet → Octet → Octet → List ℕ → List ℕ
dotted o p q r behind =
    text o ++ (b'.' ∷ (text p ++ (b'.' ∷ (text q ++ (b'.' ∷ (text r ++ behind))))))

-- The number of bytes up to the end of the last octet.
abbrev pub dotted_length : Octet → Octet → Octet → Octet → ℕ
dotted_length o p q r =
    length (text o) + 1 + length (text p) + 1 + length (text q) + 1 + length (text r)

-- `get_ipv4_addr` on blanks and four decimal numbers with dots between them, and a blank or nothing
-- behind the last, gives the number of bytes up to the end of the last number and the address whose
-- bytes are the four numbers, if each of them is below 255. If one is 255 or more it gives 0.
pub get_ipv4_addr-dotted :
    (blanks behind : List ℕ) (o p q r : Octet)
    → All (λ c. blank c ≡ true) blanks
    → EndsNumber behind
    → get_ipv4_addr (blanks ++ dotted o p q r behind) ≡ (
        if ltb (value o) 255 && ltb (value p) 255 && ltb (value q) 255 && ltb (value r) 255
        then some (
          length blanks + dotted_length o p q r,
          ((value o * 256 + value p) * 256 + value q) * 256 + value r,
        )
        else none)
unfolding get_ipv4_addr
get_ipv4_addr-dotted blanks behind o p q r are_blank ends =
    loop_blanks blanks (dotted o p q r behind) zeros 0 are_blank
    ∙ stage s_start s_number1 s_dot1
        (λ d. record { number1 = d; number2 = 0; number3 = 0; number4 = 0 }) zeros (λ _. refl)
        (λ _ _. refl) refl o _ _ _
        (stage s_dot1 s_number2 s_dot2
          (λ d. record { number1 = value o; number2 = d; number3 = 0; number4 = 0 })
          (record { number1 = value o; number2 = 0; number3 = 0; number4 = 0 }) (λ _. refl)
          (λ _ _. refl) refl p _ _ _
          (stage s_dot2 s_number3 s_dot3
            (λ d. record { number1 = value o; number2 = value p; number3 = d; number4 = 0 })
            (record { number1 = value o; number2 = value p; number3 = 0; number4 = 0 }) (λ _. refl)
            (λ _ _. refl) refl q _ _ _
            (stage_end
              (record { number1 = value o; number2 = value p; number3 = value q; number4 = 0 }) r
              behind _ ends)))
    ∙ all_four (ltb (value o) 255) (ltb (value p) 255) (ltb (value q) 255) (ltb (value r) 255) _ _
        λ o_small p_small q_small r_small. found_eq _ _ _ _ (omega arith) (
          address (value o) (value p) (value q) (value r) (ltb→lt _ _ o_small) (ltb→lt _ _ p_small)
            (ltb→lt _ _ q_small) (ltb→lt _ _ r_small))
