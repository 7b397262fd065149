-- ===== src/Pow/Bits.antt =====
-- Proofs about the tests of Pow/Hash.antt: each counts leading zero bits (src/p2p/pow.go,
-- src/p2p/gas.go, src/crypto/puzzle.go).
use Prim.Native.Nat.{bit_and}
use web5_mesh.Base.{
  ℕ, zero, suc, ◌+◌, ◌-◌, ◌*◌, ◌/◌, ◌%◌, ◌^◌, ◌≡◌, ◌≤◌, ◌<◌, refl, sym, Bool, true, false, not,
  some, [], ◌∷◌, arith, leb, ◌==◌, get_or, get_elem?, length, All, min,
}
use web5_mesh.Base.Int.{pos}
use web5_mesh.Base.Classes.{Text}
use web5_mesh.Base.Table.{passes_below, table_entry}
use web5_mesh.Pow.Hash.{
  zero_bytes, check_bits, check_pow, mask_test, verify_hash, leading_zeros8,
  count_leading_zero_bits,
}

-- Every entry is a byte.
abbrev pub IsBytes : Text → Type 0
IsBytes = All (λ b. b < 256)

iff : Bool → Bool → Bool
iff true b = b
iff false b = not b

iff_eq : (a b : Bool) → iff a b ≡ true → a ≡ b
unfolding iff
iff_eq true b h = sym h
iff_eq false b h = ground arith

-- The leading r bits of a byte are zero: by shift, by mask and by count.
shift_table :
    passes_below 8
      (λ r. passes_below 256 (λ b. iff (b / 2 ^ (8 - r) == 0) (leb r (leading_zeros8 b))))
    ≡ true
unfolding passes_below iff leading_zeros8
shift_table = refl

mask_table :
    passes_below 8 (λ r.
      passes_below 256
        (λ b. iff (bit_and b (255 * 2 ^ (8 - r) % 256) == 0) (leb r (leading_zeros8 b))))
    ≡ true
unfolding passes_below iff leading_zeros8
mask_table = refl

shifted : (r b : ℕ) → r < 8 → b < 256 → (b / 2 ^ (8 - r) == 0) ≡ leb r (leading_zeros8 b)
shifted r b hr hb = iff_eq _ _ (table_entry 256 _ b hb (table_entry 8 _ r hr shift_table))

masked :
    (r b : ℕ)
    → r < 8
    → b < 256
    → (bit_and b (255 * 2 ^ (8 - r) % 256) == 0) ≡ leb r (leading_zeros8 b)
masked r b hr hb = iff_eq _ _ (table_entry 256 _ b hb (table_entry 8 _ r hr mask_table))

leading_zeros8-le : (b : ℕ) → 0 < b → leading_zeros8 b ≤ 7
unfolding leading_zeros8
leading_zeros8-le b h = ground arith

leading_zeros8_zero : leading_zeros8 0 ≡ 8
unfolding leading_zeros8
leading_zeros8_zero = refl

-- The number of whole zero bytes asked for is reached or not.
zero_bytes_count :
    (n : ℕ) (hash : Text)
    → n ≤ length hash
    → zero_bytes n hash ≡ some (leb (8 * n) (count_leading_zero_bits hash))
unfolding zero_bytes count_leading_zero_bits
zero_bytes_count zero hash h = ground arith
zero_bytes_count (suc n) [] h = absurd (omega arith)
zero_bytes_count (suc n) (b ∷ hash) h = ground (arith, zero_bytes_count n hash, leading_zeros8-le b)

-- Behind n zero bytes the count goes on with the next byte.
next_byte :
    (n r : ℕ) (hash : Text)
    → n < length hash
    → 0 < r
    → r < 8
    → 8 * n ≤ count_leading_zero_bits hash
    → leb (8 * n + r) (count_leading_zero_bits hash) ≡ leb r (leading_zeros8 (get_or hash n 0))
unfolding count_leading_zero_bits
next_byte n r [] h p q k = absurd (omega arith)
next_byte zero r (b ∷ hash) h p q k = ground (arith, leading_zeros8_zero)
next_byte (suc n) r (b ∷ hash) h p q k = ground (arith, next_byte n r hash, leading_zeros8-le b)

IsBytes-get_or : (hash : Text) (n : ℕ) → IsBytes hash → n < length hash → get_or hash n 0 < 256
IsBytes-get_or [] n w h = absurd (omega arith)
IsBytes-get_or (b ∷ hash) zero w h = w.0
IsBytes-get_or (b ∷ hash) (suc n) w h = IsBytes-get_or hash n w.1 (omega arith)

get_elem?-get_or :
    (hash : Text) (n : ℕ) → n < length hash → get_elem? hash n ≡ some (get_or hash n 0)
get_elem?-get_or [] n h = absurd (omega arith)
get_elem?-get_or (b ∷ hash) zero h = refl
get_elem?-get_or (b ∷ hash) (suc n) h = get_elem?-get_or hash n (omega arith)

unfold_mask : (hash : Text) (n : ℕ) → mask_test hash n 0 ≡ some true
unfolding mask_test
unfold_mask hash n = refl

module _ (hash : Text) (w : IsBytes hash) where
  check_bits-count :
      (bits : ℕ)
      → bits < 8 * length hash
      → check_bits hash bits ≡ leb bits (count_leading_zero_bits hash)
  unfolding check_bits
  check_bits-count bits h =
      let n = bits / 8 in
      let r = bits % 8 in
      ground (
        arith,
        zero_bytes_count n hash,
        next_byte n r hash,
        shifted r (get_or hash n 0),
        IsBytes-get_or hash n w,
      )

  mask_test-count :
      (n r : ℕ)
      → n < length hash
      → r < 8
      → 8 * n ≤ count_leading_zero_bits hash
      → mask_test hash n r ≡ some (leb (8 * n + r) (count_leading_zero_bits hash))
  unfolding mask_test
  mask_test-count n r h p k = ground (
    arith,
    get_elem?-get_or hash n h,
    next_byte n r hash h,
    masked r (get_or hash n 0),
    IsBytes-get_or hash n w,
  )

  -- CheckPoW accepts a 32-byte hash exactly if it has the wanted number of leading zero bits, where
  -- more than 32 are never wanted.
  pub check_pow-count :
      length hash ≡ 32
      → (bits : ℕ) → check_pow hash (pos bits) ≡ leb (min bits 32) (count_leading_zero_bits hash)
  unfolding check_pow
  check_pow-count size bits = ground (arith, check_bits-count bits, check_bits-count 32)

  -- VerifyPoW's test of a 32-byte hash does not index out of range for up to 256 bits, and accepts
  -- it exactly if it has the wanted number of leading zero bits.
  pub verify_hash-count :
      length hash ≡ 32
      → (difficulty : ℕ) → difficulty ≤ 256
      → verify_hash hash difficulty ≡ some (leb difficulty (count_leading_zero_bits hash))
  unfolding verify_hash
  verify_hash-count size d h = ground (
    arith,
    zero_bytes_count (d / 8) hash,
    mask_test-count (d / 8) (d % 8),
    unfold_mask hash (d / 8),
  )
