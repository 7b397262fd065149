-- ===== src/P2p/Distance.antt =====
-- Bucket indices and distances of src/p2p/kademlia.go.
pub mod Laws
use Prim.Native.Nat.{bit_and, bit_xor}
use web5_mesh.Base.{
  ℕ, zero, suc, ◌+◌, ◌-◌, ◌*◌, ◌/◌, ◌%◌, ◌^◌, ◌≡◌, ◌≤◌, ◌<◌, refl, sym, ap, ◌∙◌, Bool, true, false,
  not, ◌&&◌, ◌||◌, Option, none, some, List, [], ◌∷◌, ◌++◌, arith, ltb, leb, ◌==◌, if◌then◌else◌,
  Bool-cases, Option-cases, List-cases, inl, inr, length, length-append, take, any, All, min, u64,
}
use web5_mesh.Base.Classes.{Text}

-- The bytes a[i] ^ b[i].
abbrev pub xor_bytes : Text → Text → Text
xor_bytes [] b = []
xor_bytes (x ∷ a) [] = []
xor_bytes (x ∷ a) (y ∷ b) = bit_xor x y ∷ xor_bytes a b

-- The loop over `bit`, from the given bit down.
unfoldable pub top_bit : ℕ → ℕ → Option ℕ
top_bit byte zero = if bit_and byte 1 == 0 then none else some 0
top_bit byte (suc bit) =
    let below = top_bit byte bit in
    if bit_and byte (2 ^ suc bit) == 0 then below else some (suc bit)

-- The loop over `i` from the last byte down: the bytes from index i on, of which the later ones
-- are looked at first.
unfoldable pub index_from : ℕ → Text → Option ℕ
unfolding top_bit
index_from i [] = none
index_from i (byte ∷ rest) = elim (index_from (i + 1) rest) [
  | some found ↦ some found
  | none ↦
      if byte == 0
      then none
      else elim (top_bit byte 7) [ none ↦ none | some bit ↦ some (i * 8 + bit) ]
]

unfoldable pub bucket_index : Text → Text → ℕ
unfolding index_from
bucket_index local_id target_id = elim (index_from 0 (xor_bytes local_id target_id)) [
  | none ↦ 0
  | some index ↦ index
]

-- The loop of xorDistance; the shift drops the high bits, and the low eight that it leaves free
-- take the byte.
unfoldable pub fold_distance : ℕ → Text → ℕ
fold_distance result [] = result
fold_distance result (byte ∷ rest) = fold_distance (u64 (result * 256) + byte) rest

unfoldable pub xor_distance : Text → Text → ℕ
unfolding fold_distance
xor_distance a b = fold_distance 0 (xor_bytes a b)

-- The bytes as a number, the first the least significant.
abbrev pub little_endian : Text → ℕ
little_endian [] = 0
little_endian (byte ∷ rest) = byte + 256 * little_endian rest

-- The bytes as a number, the first the most significant.
abbrev pub big_endian : Text → ℕ
big_endian [] = 0
big_endian (byte ∷ rest) = byte * 256 ^ length rest + big_endian rest
