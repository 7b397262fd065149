-- ===== src/Storage/Persistence/Prefix.antt =====
-- hasPrefix, Uint64ToBytes and BytesToUint64 of src/storage/persistence.go.
use web5_mesh.Base.{ℕ, ◌^◌, ◌<◌, ◌≤◌, ◌≡◌, refl, true, false, [], ◌∷◌, ◌++◌, arith, length, take}
use web5_mesh.Base.Classes.{Text, text_eq}
use web5_mesh.Base.Bytes.{before}
use web5_mesh.Storage.Persistence.{same_start, has_prefix, uint64_to_bytes, bytes_to_uint64}

-- Reading the eight bytes of a number below 2^64 gives the number back.
pub bytes_to_uint64-uint64_to_bytes : (v : ℕ) → v < 2 ^ 64 → bytes_to_uint64 (uint64_to_bytes v) ≡ v
unfolding bytes_to_uint64 uint64_to_bytes
bytes_to_uint64-uint64_to_bytes v h = omega arith

same_start-append : (prefix rest : Text) → same_start (prefix ++ rest) prefix ≡ true
unfolding same_start
same_start-append [] rest = refl
same_start-append (p ∷ prefix) rest = ground (arith, same_start-append prefix rest)

same_start-take :
    (key prefix : Text) → same_start key prefix ≡ text_eq (take (length prefix) key) prefix
unfolding same_start
same_start-take key [] = refl
same_start-take [] (p ∷ prefix) = refl
same_start-take (c ∷ key) (p ∷ prefix) = ground (arith, same_start-take key prefix)

same_start-length : (key prefix : Text) → same_start key prefix ≡ true → length prefix ≤ length key
unfolding same_start
same_start-length key [] h = omega arith
same_start-length [] (p ∷ prefix) h = cc
same_start-length (c ∷ key) (p ∷ prefix) h = ground (arith, same_start-length key prefix)

-- The test of the lengths only saves time.
pub has_prefix-same_start : (key prefix : Text) → has_prefix key prefix ≡ same_start key prefix
unfolding has_prefix
has_prefix-same_start key prefix = ground (arith, same_start-length key prefix)

same_start_block :
    (k j prefix : Text)
    → same_start j prefix ≡ true
    → before k prefix ≡ false
    → before k j ≡ true
    → same_start k prefix ≡ true
unfolding same_start before
same_start_block k j [] h f b = refl
same_start_block k [] (p ∷ prefix) h f b = cc
same_start_block [] (d ∷ j) (p ∷ prefix) h f b = cc
same_start_block (c ∷ k) (d ∷ j) (p ∷ prefix) h f b = ground (arith, same_start_block k j prefix)

-- The keys with a prefix stand together: between the prefix and a key that has it, every key has
-- it.
pub has_prefix_block :
    (k j prefix : Text)
    → has_prefix j prefix ≡ true
    → before k prefix ≡ false
    → before k j ≡ true
    → has_prefix k prefix ≡ true
has_prefix_block k j prefix h f b = ground (
  arith,
  has_prefix-same_start k prefix,
  has_prefix-same_start j prefix,
  same_start_block k j prefix,
)

same_start-before : (k prefix : Text) → same_start k prefix ≡ true → before k prefix ≡ false
unfolding same_start before
same_start-before [] [] h = refl
same_start-before (c ∷ k) [] h = refl
same_start-before [] (p ∷ prefix) h = cc
same_start-before (c ∷ k) (p ∷ prefix) h = ground (arith, same_start-before k prefix)

-- No key with a prefix comes before it.
pub has_prefix-before : (k prefix : Text) → has_prefix k prefix ≡ true → before k prefix ≡ false
has_prefix-before k prefix h =
    ground (arith, has_prefix-same_start k prefix, same_start-before k prefix)
