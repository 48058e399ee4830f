-- ===== src/Scan.antt =====
-- libs/sscanf: numbers, addresses and hash strings scanned from a buffer. A buffer that is only read
-- is the list of its bytes.
pub mod Decimal
pub mod Integer
pub mod Ipv4
pub mod HashString
use esq.Base.{ℕ, Bool, true, false, ◌||◌, ◌==◌, within, List, [], ◌∷◌, ◌+◌, ◌*◌, ◌-◌}

-- TAB, LF, CR and space: what the tables of the three scanners take for a blank.
abbrev pub blank : ℕ → Bool
blank c = c == 9 || c == 10 || c == 13 || c == 32

abbrev pub digit : ℕ → Bool
digit = within b'0' b'9'
