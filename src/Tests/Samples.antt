-- ===== src/Tests/Samples.antt =====
-- Data that the tests share, and concrete functions for the parameters of the models.
use web5_mesh.Base.{
  ℕ, zero, suc, ◌+◌, ◌*◌, ◌/◌, ◌%◌, ◌≡◌, ◌<◌, Option, none, some, [], ◌∷◌, ◌++◌, arith, ltb, length,
  replicate, take, drop, refl, if◌then◌else◌, length-append, Bool-cases, inl, inr, length-drop,
  length-take, ap,
}
use web5_mesh.Base.Classes.{Text, text_eq, text_eq_iff}
use web5_mesh.Pow.Bits.{IsBytes}
use web5_mesh.Crypto.Aead.{Aead}
use web5_mesh.Reputation.System.{Floats}

abbrev pub total : Text → ℕ
total [] = 0
total (b ∷ rest) = b + total rest

-- A checksum in place of a hash: 32 bytes, the first one the sum.
abbrev pub checksum : Text → Text
checksum s =
    total s % 256
    ∷ 0
    ∷ 0
    ∷ 0
    ∷ 0
    ∷ 0
    ∷ 0
    ∷ 0
    ∷ 0
    ∷ 0
    ∷ 0
    ∷ 0
    ∷ 0
    ∷ 0
    ∷ 0
    ∷ 0
    ∷ 0
    ∷ 0
    ∷ 0
    ∷ 0
    ∷ 0
    ∷ 0
    ∷ 0
    ∷ 0
    ∷ 0
    ∷ 0
    ∷ 0
    ∷ 0
    ∷ 0
    ∷ 0
    ∷ 0
    ∷ 0
    ∷ []

pub checksum_size : (s : Text) → length (checksum s) ≡ 32
checksum_size s = refl

below : (n : ℕ) → n % 256 < 256
below n = omega arith

pub checksum-IsBytes : (s : Text) → IsBytes (checksum s)
checksum-IsBytes s = (below (total s), zeros 31)
  where
    zeros : (n : ℕ) → IsBytes (replicate n 0)
    zeros zero = tt
    zeros (suc n) = (omega arith, zeros n)

abbrev pub tag : Text
tag = replicate 16 7

abbrev pub opened : Text → Option Text
opened c = if text_eq (take 16 c) tag then some (drop 16 c) else none

pub opened-tag : (p : Text) → opened (tag ++ p) ≡ some p
opened-tag p = ground arith

pub opened-length : (c p : Text) → opened c ≡ some p → length c ≡ length p + 16
opened-length c p h = elim (Bool-cases (text_eq (take 16 c) tag)) [
  | inl e ↦
      let size = ap length ((text_eq_iff (take 16 c) tag).0 e) in
      let rest = rw e at h in ground (arith, rest, size, length-take 16 c, length-drop 16 c)
  | inr e ↦ cc (rw e at h)
]

-- A cipher that puts a fixed tag before the text.
abbrev pub tagged : Aead
tagged = record {
  seal = λ key nonce plaintext extra. tag ++ plaintext;
  unseal = λ key nonce ciphertext extra. opened ciphertext;
  unseal-seal = λ key nonce plaintext extra h. opened-tag plaintext;
  length-seal = λ key nonce plaintext extra. omega (arith, length-append tag plaintext);
  length-unseal = λ key nonce ciphertext extra plaintext h. opened-length ciphertext plaintext h;
}

-- Whole numbers in place of float64.
abbrev pub whole : Floats
whole = record {
  F = ℕ;
  of_u64 = λ n. n;
  to_u64 = λ n. n;
  times = λ a b. a * b / 100;
  over = λ a b. a / b;
  is_positive = λ a. ltb 0 a;
  hours_since = λ now last. now / 3600;
  rate = 5;
  hours_per_day = 24;
}
