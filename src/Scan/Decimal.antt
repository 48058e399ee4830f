-- ===== src/Scan/Decimal.antt =====
-- Decimal numbers in a text: what the scanners of numbers are held against.
use esq.Base.{ℕ, ◌+◌, ◌*◌, ◌-◌, ◌≤◌, ◌≡◌, true, false, List, [], ◌∷◌, arith}
use esq.Scan.{blank, digit}

-- The value of decimal digits behind digits of value `v`.
abbrev pub value_from : ℕ → List ℕ → ℕ
value_from v [] = v
value_from v (c ∷ cs) = value_from (v * 10 + (c - b'0')) cs

-- What may follow a number.
abbrev pub EndsNumber : List ℕ → Type 0
EndsNumber [] = Unit
EndsNumber (c ∷ r) = blank c ≡ true

pub digit_not_blank : (c : ℕ) → blank c ≡ true → digit c ≡ false
digit_not_blank c h = ground arith

pub digit_value : (c : ℕ) → digit c ≡ true → c - b'0' ≤ 9
digit_value c h = ground arith

pub value_from-le : (v : ℕ) (ds : List ℕ) → v ≤ value_from v ds
value_from-le v [] = omega arith
value_from-le v (c ∷ cs) = omega (arith, value_from-le (v * 10 + (c - b'0')) cs)
