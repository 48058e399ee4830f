-- ===== src/RangeMap/Translate.antt =====
-- TRANSLATE_MKC_PARAMS in front of the functions that add and delete nodes: it ends, and lets no hash
-- of more than 16 bytes pass.
use esq.Base.{
  ℕ, zero, suc, ◌+◌, ◌*◌, ◌/◌, ◌%◌, ◌<◌, ◌≤◌, ◌≡◌, ◌⊎◌, refl, inl, inr, Bool, true, false, not,
  ◌||◌, Option, none, some, arith, ◌==◌, Bool-cases, ltb, Mem, store, slice, strnlen, done,
}
use esq.Scan.Ipv4.{get_ipv4_addr}
use esq.Scan.HashString.{get_hash_string, hash_string_2_bin_table, bin_loop, hash_str_2_bin}
use esq.RangeMap.State.{hash_value_length}
use esq.RangeMap.Commands.{
  Message, invalid_ip_length, invalid_ip, invalid_hash_parameter_length, invalid_hash,
  invalid_hash_length, failed_to_transform, Params, translate_hash, translate_mkc_params,
}

bin_loop-done :
    (fuel : ℕ) (buf s : Mem) (len i w : ℕ)
    → 0 < fuel
    → len < fuel + i
    → (b : Mem) × (bin_loop fuel buf s len i w ≡ done b)
unfolding bin_loop
bin_loop-done zero buf s len i w p f = absurd (omega arith)
bin_loop-done (suc fuel) buf s len i w p f = elim (Bool-cases (ltb i len)) [
  | inl e ↦
      let below : i < len = ground arith in
      let (b, run) =
        bin_loop-done fuel
          (store buf w (hash_string_2_bin_table (s i) * 16 + hash_string_2_bin_table (s (i + 1)))) s
          len (i + 2) (w + 1) (omega arith) (omega arith) in
      (b, rw e run)
  | inr e ↦ (buf, rw e refl)
]

hash_str_2_bin-done :
    (buf s : Mem) (len : ℕ)
    → (hash_str_2_bin buf s len ≡ none) ⊎ ((b : Mem) × (hash_str_2_bin buf s len ≡ some (done b)))
unfolding hash_str_2_bin
hash_str_2_bin-done buf s len = elim (Bool-cases (len % 2 == 1)) [
  | inl e ↦ inl (rw e refl)
  | inr e ↦
      let (b, run) = bin_loop-done (len + 1) buf s len 0 0 (omega arith) (omega arith) in
      inr (b, rw (e, run) refl)
]

-- What is made of parameters that are accepted.
abbrev pub Accepted : Message ⊎ Params → Type 0
Accepted (inl e) = Unit
Accepted (inr params) = params.hash_len ≤ 16

or_false : (a b : Bool) → (a || b) ≡ false → (a ≡ false) × (b ≡ false)
or_false true b h = absurd (cc h)
or_false false b h = (refl, h)

short_hash :
    (start len l : ℕ)
    → (ltb l 1 || ltb (hash_value_length + 1) l) ≡ false
    → (not (start == 0) || not (len + 1 == l) || ltb (hash_value_length * 2) len) ≡ false
    → len / 2 ≤ 16
short_hash start len l e good =
    let (positive, low) = or_false (ltb l 1) (ltb (hash_value_length + 1) l) e in
    let (both, fits) =
      or_false (not (start == 0) || not (len + 1 == l)) (ltb (hash_value_length * 2) len) good in
    let (zero_start, at) = or_false (not (start == 0)) (not (len + 1 == l)) both in
    let whole : len + 1 ≡ l = ground arith in let few : l ≤ 33 = ground arith in omega arith

translate_hash-Accepted :
    (ip : ℕ) (hash_string hash_buffer : Mem)
    → (r : Message ⊎ Params) × (translate_hash ip hash_string hash_buffer ≡ done r) × Accepted r
unfolding translate_hash
translate_hash-Accepted ip hash_string hash_buffer = elim (Bool-cases too_long) [
  | inl e ↦ (inl invalid_hash_parameter_length, rw (e, translate_hash) refl, tt)
  | inr e ↦ by_scan e (get_hash_string (slice hash_string 0 l)) refl
]
  where
    l : ℕ
    l = strnlen hash_string (hash_value_length + 3)

    too_long : Bool
    too_long = ltb l 1 || ltb (hash_value_length + 1) l

    by_scan :
        too_long ≡ false
        → (g : Option (ℕ × ℕ × ℕ)) → get_hash_string (slice hash_string 0 l) ≡ g
        → (r : Message ⊎ Params) × (translate_hash ip hash_string hash_buffer ≡ done r) × Accepted r
    by_scan e none g = (inl invalid_hash, rw (e, g, translate_hash) refl, tt)
    by_scan e (some (r, start, len)) g =
        elim (Bool-cases
          (not (start == 0) || not (len + 1 == l) || ltb (hash_value_length * 2) len)) [
            | inl bad ↦ (inl invalid_hash_length, rw (e, g, bad, translate_hash) refl, tt)
            | inr good ↦ elim (hash_str_2_bin-done hash_buffer (λ i. hash_string (start + i)) len) [
              | inl odd ↦ (inl failed_to_transform, rw (e, g, good, odd, translate_hash) refl, tt)
              | inr (b, run) ↦ (
                inr (record { ip = ip; hash_str_len = len; hash_len = len / 2; hash_buffer = b }),
                rw (e, g, good, run, translate_hash) refl,
                short_hash start len l e good,
              )
            ]
          ]

pub translate_mkc_params-Accepted :
    (ip_str hash_string hash_buffer : Mem)
    → (r : Message ⊎ Params) × (translate_mkc_params ip_str hash_string hash_buffer ≡ done r)
      × Accepted r
unfolding translate_mkc_params
translate_mkc_params-Accepted ip_str hash_string hash_buffer = elim (Bool-cases wrong) [
  | inl e ↦ (inl invalid_ip_length, rw (e, translate_mkc_params) refl, tt)
  | inr e ↦ by_scan e (get_ipv4_addr (slice ip_str 0 l)) refl
]
  where
    l : ℕ
    l = strnlen ip_str 20

    wrong : Bool
    wrong = ltb l 7 || ltb 15 l

    by_scan :
        wrong ≡ false
        → (g : Option (ℕ × ℕ)) → get_ipv4_addr (slice ip_str 0 l) ≡ g
        → (r : Message ⊎ Params) × (translate_mkc_params ip_str hash_string hash_buffer ≡ done r)
          × Accepted r
    by_scan e none g = (inl invalid_ip, rw (e, g, translate_mkc_params) refl, tt)
    by_scan e (some (r, ip)) g =
        let (t, run, ok) = translate_hash-Accepted ip hash_string hash_buffer in
        (t, rw (e, g, translate_mkc_params) run, ok)
