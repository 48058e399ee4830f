-- ===== src/Scan/HashString/Binary.antt =====
-- Hexadecimal text, and the bytes that the conversion makes of it.
use esq.Base.{
  ℕ, zero, suc, ◌+◌, ◌*◌, ◌/◌, ◌%◌, ◌<◌, ◌≤◌, ◌≡◌, ◌⊎◌, ◌-◌, inl, inr, sym, subst, refl, ◌∙◌, true,
  false, some, List, [], ◌∷◌, ◌++◌, append-nil, append_assoc, arith, ltb, ◌==◌, length, Mem, store,
  store_ne, slice, slice-store_push, Run, done, out_of_fuel,
}
use esq.Scan.HashString.{hash_string_2_bin_table, bin_loop, hash_str_2_bin}

-- The byte `c` is a hexadecimal digit, of either case, of the value `d`.
abbrev pub IsDigit : ℕ → ℕ → Type 0
IsDigit d c =
    ((d < 10) × (c ≡ b'0' + d))
    ⊎ (((10 ≤ d) × (d < 16) × (c ≡ b'a' + (d - 10)))
        ⊎ ((10 ≤ d) × (d < 16) × (c ≡ b'A' + (d - 10))))

-- The text is two digits for each byte, each in either case.
abbrev pub Spells : List ℕ → List ℕ → Type 0
Spells [] [] = Unit
Spells [] (c ∷ cs) = ⊥
Spells (b ∷ bs) [] = ⊥
Spells (b ∷ bs) (c ∷ []) = ⊥
Spells (b ∷ bs) (c ∷ c' ∷ cs) = IsDigit (b / 16) c × IsDigit (b % 16) c' × Spells bs cs

table-IsDigit : (d c : ℕ) → IsDigit d c → hash_string_2_bin_table c ≡ d
unfolding hash_string_2_bin_table
table-IsDigit d c (inl (small, e)) =
    subst (λ q. hash_string_2_bin_table q ≡ d) (sym e) (ground arith)
table-IsDigit d c (inr (inl (low, high, e))) = ground arith
table-IsDigit d c (inr (inr (low, high, e))) = ground arith

-- What a run from `w` written bytes must give where `out` is still to be written.
abbrev Writes : Mem → ℕ → List ℕ → Run Mem → Type 0
Writes buf w out (done buf') =
    (slice buf' 0 (w + length out) ≡ slice buf 0 w ++ out)
    × ((q : ℕ) → w + length out ≤ q → buf' q ≡ buf q)
Writes buf w out out_of_fuel = ⊥

Writes-store :
    (buf : Mem) (w c : ℕ) (out : List ℕ) (x : Run Mem)
    → Writes (store buf w c) (w + 1) out x
    → Writes buf w (c ∷ out) x
Writes-store buf w c out (done buf') (got, same) =
    let shift : w + suc (length out) ≡ w + 1 + length out = omega arith in
    rw shift (
      got ∙ rw slice-store_push (append_assoc (slice buf 0 w) (c ∷ []) out),
      λ q b. same q b ∙ store_ne buf w c q (omega arith),
    )
Writes-store buf w c out out_of_fuel h = h

bin_loop-Writes :
    (fuel : ℕ) (bs : List ℕ) (buf s : Mem) (len i w : ℕ)
    → Spells bs (slice s i (2 * length bs))
    → len ≡ i + 2 * length bs
    → length bs < fuel
    → Writes buf w bs (bin_loop fuel buf s len i w)
unfolding bin_loop
bin_loop-Writes zero bs buf s len i w held e f = absurd (omega arith)
bin_loop-Writes (suc fuel) [] buf s len i w held e f =
    let end : ltb i len ≡ false = ground arith in
    let same : w + 0 ≡ w = omega arith in rw (end, same) (rw append-nil refl, λ q b. refl)
bin_loop-Writes (suc fuel) (b ∷ bs) buf s len i w held e f =
    let go : ltb i len ≡ true = ground arith in
    let two : 2 * suc (length bs) ≡ suc (suc (2 * length bs)) = omega arith in
    let h : Spells (b ∷ bs) (slice s i (suc (suc (2 * length bs)))) = rw two at held in
    let (h0, h1, h2) = h in
    let at2 : i + 1 + 1 ≡ i + 2 = omega arith in
    let byte : b / 16 * 16 + b % 16 ≡ b = omega arith in
    rw (go, table-IsDigit (b / 16) (s i) h0, table-IsDigit (b % 16) (s (i + 1)) h1, byte)
      (Writes-store buf w b bs _ (
        bin_loop-Writes fuel bs (store buf w b) s len (i + 2) (w + 1) (rw at2 at h2) (omega arith)
          (omega arith)))

-- `hash_str_2_bin` on a hexadecimal text of some bytes, two digits for each byte and each digit in
-- upper or lower case, writes those bytes to the start of the buffer and leaves the rest of the
-- buffer alone.
pub hash_str_2_bin-hex :
    (bs : List ℕ) (buf s : Mem)
    → Spells bs (slice s 0 (2 * length bs))
    → (buf' : Mem) × (hash_str_2_bin buf s (2 * length bs) ≡ some (done buf'))
      × (slice buf' 0 (length bs) ≡ bs)
      × ((q : ℕ) → length bs ≤ q → buf' q ≡ buf q)
unfolding hash_str_2_bin
hash_str_2_bin-hex bs buf s held =
    let even : (2 * length bs % 2 == 1) ≡ false = ground arith in
    rw even (
      read (bin_loop (2 * length bs + 1) buf s (2 * length bs) 0 0) (
        bin_loop-Writes (2 * length bs + 1) bs buf s (2 * length bs) 0 0 held (omega arith)
          (omega arith)))
  where
    read :
        (x : Run Mem)
        → Writes buf 0 bs x
        → (buf' : Mem) × (some x ≡ some (done buf'))
          × (slice buf' 0 (length bs) ≡ bs)
          × ((q : ℕ) → length bs ≤ q → buf' q ≡ buf q)
    read (done buf') (got, same) =
        let e : 0 + length bs ≡ length bs = omega arith in
        (buf', refl, rw e at got, λ q b. same q (omega arith))
    read out_of_fuel h = absurd h
