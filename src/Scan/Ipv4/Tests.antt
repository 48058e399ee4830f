-- ===== src/Scan/Ipv4/Tests.antt =====
-- Runs on " 10.0.0.7", and the theorem on dotted addresses there.
use esq.Base.{
  ℕ, ◌+◌, ◌*◌, ◌≡◌, refl, ◌&&◌, none, some, List, [], ◌∷◌, ◌++◌, ltb, if◌then◌else◌, length,
  literal, strnlen,
}
use esq.Scan.Ipv4.{ipv4_loop, get_ipv4_addr, get_ipv4_addr2}
use esq.Scan.Ipv4.Dotted.{Octet, value, dotted, dotted_length, get_ipv4_addr-dotted}

abbrev one_blank : List ℕ
one_blank = b' ' ∷ []

abbrev ten : Octet
ten = record { first = b'1'; digits = b'0' ∷ []; first_digit = refl; are_digits = (refl, tt) }

abbrev nought : Octet
nought = record { first = b'0'; digits = []; first_digit = refl; are_digits = tt }

abbrev seven : Octet
seven = record { first = b'7'; digits = []; first_digit = refl; are_digits = tt }

ten_scanned : get_ipv4_addr (dotted ten nought nought seven []) ≡ some (8, 0x0a000007)
unfolding get_ipv4_addr ipv4_loop
ten_scanned = refl

ten_scanned2 : get_ipv4_addr2 (literal (dotted ten nought nought seven [])) ≡ some (8, 0x0a000007)
unfolding get_ipv4_addr2 get_ipv4_addr ipv4_loop strnlen
ten_scanned2 = refl

-- 255.0.0.1 is no address to it.
broadcast_refused :
    get_ipv4_addr (b'2' ∷ b'5' ∷ b'5' ∷ b'.' ∷ b'0' ∷ b'.' ∷ b'0' ∷ b'.' ∷ b'1' ∷ []) ≡ none
unfolding get_ipv4_addr ipv4_loop
broadcast_refused = refl

get_ipv4_addr-dotted_example : get_ipv4_addr (one_blank ++ dotted ten nought nought seven []) ≡ (
    if ltb (value ten) 255
      && ltb (value nought) 255
      && ltb (value nought) 255
      && ltb (value seven) 255
    then some (
      length one_blank + dotted_length ten nought nought seven,
      ((value ten * 256 + value nought) * 256 + value nought) * 256 + value seven,
    )
    else none)
get_ipv4_addr-dotted_example =
    get_ipv4_addr-dotted one_blank [] ten nought nought seven (refl, tt) tt
