-- ===== src/RangeMap/State.antt =====
-- The nodes of the range maps in memory.
use esq.Base.{
  ℕ, ◌+◌, ◌-◌, ◌/◌, ◌%◌, Bool, true, false, ◌&&◌, List, [], ◌∷◌, ◌==◌, if◌then◌else◌, take, Mem,
}

abbrev pub hash_value_length : ℕ
hash_value_length = 32

abbrev pub rm_node_main : ℕ
rm_node_main = 1

abbrev pub rm_node_delete : ℕ
rm_node_delete = 2

abbrev pub rm_node_me : ℕ
rm_node_me = 4

-- `flags & bit`, `flags |= bit` and `flags &= ~bit`, where `bit` is a power of two.
abbrev pub has_flag : ℕ → ℕ → Bool
has_flag flags bit = flags / bit % 2 == 1

abbrev pub set_flag : ℕ → ℕ → ℕ
set_flag flags bit = if has_flag flags bit then flags else flags + bit

abbrev pub clear_flag : ℕ → ℕ → ℕ
clear_flag flags bit = if has_flag flags bit then flags - bit else flags

-- `!memcmp(a, b, n)`, on lists of `n` bytes.
abbrev pub same_bytes : List ℕ → List ℕ → Bool
same_bytes [] [] = true
same_bytes [] (y ∷ ys) = false
same_bytes (x ∷ xs) [] = false
same_bytes (x ∷ xs) (y ∷ ys) = x == y && same_bytes xs ys

-- `range_node_t` at each address, and what was given to `free`. The address structure is a number.
pub record Nodes : Type 0 where
  pub hash_length : Mem
  pub hash : ℕ → List ℕ
  pub ip : Mem
  pub port : Mem
  pub flags : Mem
  pub next : Mem
  pub all_node_list_next : Mem
  pub address : Mem
  pub bucket : Mem
  pub freed : List ℕ

-- What `range_node_compare` compares of a node.
abbrev pub key_of : Nodes → ℕ → List ℕ
key_of ns p = take (ns.hash_length p) (ns.hash p)
