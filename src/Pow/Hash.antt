-- ===== src/Pow/Hash.antt =====
-- The hashed block of all three puzzles and the three tests on the hash: CheckPoW
-- (src/p2p/pow.go), the second half of VerifyPoW (src/p2p/gas.go) and countLeadingZeroBits
-- (src/crypto/puzzle.go).
use Prim.Native.Nat.{bit_and}
use web5_mesh.Base.{
  ℕ, zero, suc, ◌+◌, ◌-◌, ◌*◌, ◌/◌, ◌%◌, ◌^◌, Bool, true, false, not, ◌&&◌, Option, none, some, [],
  ◌∷◌, ◌++◌, ltb, leb, ◌==◌, if◌then◌else◌, get_or, get_elem?,
}
use web5_mesh.Base.Int.{ℤ, pos, negsuc}
use web5_mesh.Base.Classes.{Text}

-- binary.BigEndian.PutUint64, of a number below 2^64.
abbrev pub put_uint64 : ℕ → Text
put_uint64 v =
    v / 2 ^ 56 % 256
    ∷ v / 2 ^ 48 % 256
    ∷ v / 2 ^ 40 % 256
    ∷ v / 2 ^ 32 % 256
    ∷ v / 2 ^ 24 % 256
    ∷ v / 2 ^ 16 % 256
    ∷ v / 2 ^ 8 % 256
    ∷ v % 256
    ∷ []

unfoldable pub hash_with_nonce : (Text → Text) → Text → ℕ → Text
hash_with_nonce sha256 pub_key nonce = sha256 (pub_key ++ put_uint64 nonce)

-- The loops over the first whole bytes; `none` is an index out of range.
unfoldable pub zero_bytes : ℕ → Text → Option Bool
zero_bytes zero hash = some true
zero_bytes (suc n) [] = none
zero_bytes (suc n) (b ∷ hash) = if b == 0 then zero_bytes n hash else some false

-- CheckPoW after the clamp; a [32]byte has all the bytes that 32 bits reach.
unfoldable pub check_bits : Text → ℕ → Bool
unfolding zero_bytes
check_bits hash bits =
    let bytes = bits / 8 in
    let remaining = bits % 8 in
    elim (zero_bytes bytes hash) [
      | some true ↦ not (ltb 0 remaining && not (get_or hash bytes 0 / 2 ^ (8 - remaining) == 0))
      | some false ↦ false
      | none ↦ false
    ]

unfoldable pub check_pow : Text → ℤ → Bool
unfolding check_bits
check_pow hash (negsuc n) = true
check_pow hash (pos bits) =
    if bits == 0 then true else check_bits hash (if ltb 32 bits then 32 else bits)

-- The last test of VerifyPoW; `none` is an index out of range, where Go panics.
unfoldable pub mask_test : Text → ℕ → ℕ → Option Bool
mask_test hash bytes remaining =
    if ltb 0 remaining
    then elim (get_elem? hash bytes) [
      | none ↦ none
      | some b ↦ some (bit_and b (255 * 2 ^ (8 - remaining) % 256) == 0)
    ]
    else some true

-- VerifyPoW on the hash.
unfoldable pub verify_hash : Text → ℕ → Option Bool
unfolding zero_bytes mask_test
verify_hash hash difficulty = elim (zero_bytes (difficulty / 8) hash) [
  | none ↦ none
  | some false ↦ some false
  | some true ↦ mask_test hash (difficulty / 8) (difficulty % 8)
]

unfoldable pub verify_pow : (Text → Text) → Text → ℕ → ℤ → Option Bool
unfolding verify_hash hash_with_nonce
verify_pow sha256 challenge nonce (negsuc n) = some true
verify_pow sha256 challenge nonce (pos difficulty) =
    if difficulty == 0
    then some true
    else verify_hash (hash_with_nonce sha256 challenge nonce) difficulty

-- bits.LeadingZeros8, of a byte.
unfoldable pub leading_zeros8 : ℕ → ℕ
leading_zeros8 b =
    if leb 128 b
    then 0
    else if leb 64 b
    then 1
    else if leb 32 b
    then 2
    else if leb 16 b
    then 3
    else if leb 8 b
    then 4
    else if leb 4 b
    then 5
    else if leb 2 b
    then 6
    else if leb 1 b
    then 7
    else 8

unfoldable pub count_leading_zero_bits : Text → ℕ
unfolding leading_zeros8
count_leading_zero_bits [] = 0
count_leading_zero_bits (b ∷ rest) =
    let more = count_leading_zero_bits rest in if b == 0 then 8 + more else leading_zeros8 b
