-- ===== src/PathBloom.antt =====
-- libs/path-bloom-filter/path-bloom-filter.c: a Bloom filter of paths in three bit maps.
pub mod Bits
pub mod Members
mod Tests
use esq.Base.{
  ℕ, zero, suc, ◌+◌, ◌*◌, ◌-◌, ◌/◌, ◌%◌, ◌^◌, bit_and, bit_or, bit_xor, Bool, true, false, not,
  ◌&&◌, Option, none, some, List, [], ◌∷◌, ltb, leb, ◌==◌, if◌then◌else◌, length, Mem, store, slice,
  strnlen,
}

abbrev pub bits_array_size : ℕ
bits_array_size = 512

abbrev pub mgc0 : ℕ
mgc0 = 0x189a189a

abbrev pub mgc1 : ℕ
mgc1 = 0x189b189b

abbrev pub esq_path_bloom_max : ℕ
esq_path_bloom_max = 1024

-- `path_bloom_filter_t`
pub record Filter : Type 0 where
  pub magic0 : ℕ
  pub bitmap0 : Mem
  pub bitmap1 : Mem
  pub bitmap2 : Mem
  pub magic1 : ℕ

abbrev pub new_filter : Filter
new_filter = record {
  magic0 = mgc0;
  bitmap0 = λ _. 0;
  bitmap1 = λ _. 0;
  bitmap2 = λ _. 0;
  magic1 = mgc1;
}

-- A new filter, or none where the allocation fails.
unfoldable pub path_bloom_filter_new : Bool → Option Filter
path_bloom_filter_new false = none
path_bloom_filter_new true = some new_filter

-- `c = path[i]`, from a signed `char` to an `unsigned int`.
abbrev pub widen : ℕ → ℕ
widen c = if ltb c 128 then c else c + (2 ^ 32 - 256)

-- `~x` on an `unsigned int`.
abbrev pub complement : ℕ → ℕ
complement x = 2 ^ 32 - 1 - x

-- What `path_bloom_hash0` multiplies the byte at `i` by.
abbrev pub weight0 : ℕ → ℕ
weight0 i =
    let k = i % 4 in if k == 0 then 1 else if k == 1 then 2 ^ 3 else if k == 2 then 2 ^ 5 else 2 ^ 8

unfoldable pub hash0_loop : List ℕ → ℕ → ℕ → ℕ
hash0_loop [] i hash = hash
hash0_loop (x ∷ path) i hash =
    hash0_loop path (i + 1) ((hash + widen x * weight0 i % 2 ^ 32) % 2 ^ 32)

unfoldable pub path_bloom_hash0 : List ℕ → ℕ
unfolding hash0_loop
path_bloom_hash0 path = hash0_loop path 0 0 % 4096

unfoldable pub hash1_loop : List ℕ → ℕ → ℕ
hash1_loop [] hash = hash
hash1_loop (x ∷ path) hash = hash1_loop path ((hash * 131 + widen x) % 2 ^ 32)

unfoldable pub path_bloom_hash1 : List ℕ → ℕ
unfolding hash1_loop
path_bloom_hash1 path = hash1_loop path 0 % 4096

-- What `path_bloom_hash2` exclusive-ors into the hash at `k`, with the byte `c`.
abbrev pub mixed2 : ℕ → ℕ → ℕ → ℕ
mixed2 k c last =
    let shl = λ (n : ℕ). c * 2 ^ n % 2 ^ 32 in
    if k == 0
    then c
    else if k == 1
    then complement (shl 2)
    else if k == 2
    then bit_xor (shl 7) last
    else if k == 3
    then complement (shl 5)
    else if k == 4
    then shl 6
    else if k == 5
    then complement (shl 3)
    else if k == 6
    then shl 1
    else bit_xor (shl 4) last

-- `last` afterwards.
abbrev pub last2 : ℕ → ℕ → ℕ → ℕ
last2 k c last = if k == 1 then c else if k == 3 then c else if k == 5 then c else last

unfoldable pub hash2_loop : List ℕ → ℕ → ℕ → ℕ → ℕ → ℕ
hash2_loop [] i hash k last = hash
hash2_loop (x ∷ path) i hash k last =
    let c = widen x in
    let k' = (k + i) % 8 in
    hash2_loop path (i + 1) (bit_xor hash (mixed2 k' c last)) k' (last2 k' c last)

unfoldable pub path_bloom_hash2 : List ℕ → ℕ
unfolding hash2_loop
path_bloom_hash2 path = hash2_loop path 0 0 0 68 % 4096

abbrev pub magic_ok : Filter → Bool
magic_ok p = mgc0 == p.magic0 && mgc1 == p.magic1

-- `bitmap[hash >> 3] |= (1 << (hash & 0x3))`
unfoldable pub set_bit : Mem → ℕ → Mem
set_bit bitmap hash = store bitmap (hash / 8) (bit_or (bitmap (hash / 8)) (2 ^ (hash % 4)))

-- `bitmap[hash >> 3] & (1 << (hash & 0x3))` is not 0.
unfoldable pub has_bit : Mem → ℕ → Bool
has_bit bitmap hash = not (bit_and (bitmap (hash / 8)) (2 ^ (hash % 4)) == 0)

-- The filter with the bits of the path.
unfoldable pub with_bits : Filter → List ℕ → Filter
unfolding set_bit path_bloom_hash0 path_bloom_hash1 path_bloom_hash2
with_bits p path = record {
  magic0 = p.magic0;
  bitmap0 = set_bit p.bitmap0 (path_bloom_hash0 path);
  bitmap1 = set_bit p.bitmap1 (path_bloom_hash1 path);
  bitmap2 = set_bit p.bitmap2 (path_bloom_hash2 path);
  magic1 = p.magic1;
}

-- `__path_bloom_filter_add_path`; ESQ_ERROR_PARAM is `none`.
unfoldable pub add_path : Filter → List ℕ → Option Filter
unfolding with_bits
add_path p path = if magic_ok p then some (with_bits p path) else none

-- A null pointer is `none`, and the path the list of `path_length` bytes.
unfoldable pub path_bloom_filter_add_path2 : Option Filter → Option (List ℕ) → Option Filter
unfolding add_path
path_bloom_filter_add_path2 none path = none
path_bloom_filter_add_path2 (some p) none = none
path_bloom_filter_add_path2 (some p) (some path) =
    if ltb 0 (length path) then add_path p path else none

-- On a string.
unfoldable pub path_bloom_filter_add_path : Option Filter → Option Mem → Option Filter
unfolding add_path strnlen
path_bloom_filter_add_path none path = none
path_bloom_filter_add_path (some p) none = none
path_bloom_filter_add_path (some p) (some path) =
    let path_length = strnlen path esq_path_bloom_max in
    if path_length == 0
    then none
    else if leb esq_path_bloom_max path_length
    then none
    else add_path p (slice path 0 path_length)

-- `__path_bloom_filter_check_exist`
unfoldable pub check_exist : Filter → List ℕ → Bool
unfolding has_bit path_bloom_hash0 path_bloom_hash1 path_bloom_hash2
check_exist p path =
    if magic_ok p
    then (if not (has_bit p.bitmap0 (path_bloom_hash0 path))
        then false
        else if not (has_bit p.bitmap1 (path_bloom_hash1 path))
        then false
        else if not (has_bit p.bitmap2 (path_bloom_hash2 path))
        then false
        else true)
    else false

unfoldable pub path_bloom_filter_check_exist2 : Option Filter → Option (List ℕ) → Bool
unfolding check_exist
path_bloom_filter_check_exist2 none path = false
path_bloom_filter_check_exist2 (some p) none = false
path_bloom_filter_check_exist2 (some p) (some path) =
    if ltb 0 (length path) then check_exist p path else false

unfoldable pub path_bloom_filter_check_exist : Option Filter → Option Mem → Bool
unfolding check_exist strnlen
path_bloom_filter_check_exist none path = false
path_bloom_filter_check_exist (some p) none = false
path_bloom_filter_check_exist (some p) (some path) =
    let path_length = strnlen path esq_path_bloom_max in
    if path_length == 0
    then false
    else if leb esq_path_bloom_max path_length
    then false
    else check_exist p (slice path 0 path_length)
