-- ===== src/P2p/Distance/Laws.antt =====
-- Proofs about getBucketIndex and xorDistance (src/p2p/kademlia.go).
use Prim.Native.Nat.{bit_xor}
use native.Mathlib.Nat.{pow-suc, mul-add-mod_self_left, div-add-mod}
use web5_mesh.Base.{
  ℕ, suc, ◌+◌, ◌*◌, ◌/◌, ◌%◌, ◌^◌, ◌≡◌, ◌≤◌, ◌<◌, refl, sym, ap, ◌∙◌, Bool, true, false, ◌&&◌,
  Option, none, some, [], ◌∷◌, ◌++◌, arith, ltb, leb, ◌==◌, ==_iff, Option-cases, inl, inr, length,
  length-append, min, u64,
}
use web5_mesh.Base.Classes.{Text}
use web5_mesh.Base.Table.{passes_below, table_entry}
use web5_mesh.Pow.Bits.{IsBytes}
use web5_mesh.P2p.Distance.{
  xor_bytes, top_bit, index_from, bucket_index, fold_distance, xor_distance, little_endian,
  big_endian,
}

xor_table : passes_below 256 (λ x. passes_below 256 (λ y. ltb (bit_xor x y) 256)) ≡ true
unfolding passes_below
xor_table = refl

bit_xor-byte : (x y : ℕ) → x < 256 → y < 256 → bit_xor x y < 256
bit_xor-byte x y hx hy = ground (arith, table_entry 256 _ y hy (table_entry 256 _ x hx xor_table))

xor_bytes-IsBytes : (a b : Text) → IsBytes a → IsBytes b → IsBytes (xor_bytes a b)
xor_bytes-IsBytes [] b ha hb = tt
xor_bytes-IsBytes (x ∷ a) [] ha hb = tt
xor_bytes-IsBytes (x ∷ a) (y ∷ b) ha hb =
    (bit_xor-byte x y ha.0 hb.0, xor_bytes-IsBytes a b ha.1 hb.1)

is_top : ℕ → Option ℕ → Bool
is_top byte none = byte == 0
is_top byte (some bit) = leb (2 ^ bit) byte && ltb byte (2 ^ suc bit) && ltb bit 8

top_bit_table : passes_below 256 (λ byte. is_top byte (top_bit byte 7)) ≡ true
unfolding passes_below is_top top_bit
top_bit_table = refl

-- The number is the position of the highest one bit of the bytes, read from the last, counted from
-- bit 8 * start; or there is no one bit.
abbrev IsTop : ℕ → Text → Option ℕ → Type 0
IsTop start bytes none = little_endian bytes ≡ 0
IsTop start bytes (some k) =
    (t : ℕ) × (k ≡ start * 8 + t)
    × (t < 8 * length bytes)
    × (2 ^ t ≤ little_endian bytes)
    × (little_endian bytes < 2 ^ suc t)

pow_four : (t : ℕ) → 2 ^ suc (suc (suc (suc t))) ≡ 16 * 2 ^ t
pow_four t =
    omega (
      arith,
      pow-suc 2 t,
      pow-suc 2 (suc t),
      pow-suc 2 (suc (suc t)),
      pow-suc 2 (suc (suc (suc t))),
    )

pow_eight : (t : ℕ) → 2 ^ (t + 8) ≡ 256 * 2 ^ t
pow_eight t =
    let later : suc (suc (suc (suc (suc (suc (suc (suc t))))))) ≡ t + 8 = omega arith in
    rw⁻¹ later (omega (arith, pow_four t, pow_four (suc (suc (suc (suc t))))))

IsTop-later :
    (start k byte : ℕ) (rest : Text)
    → byte < 256
    → IsTop (start + 1) rest (some k)
    → IsTop start (byte ∷ rest) (some k)
IsTop-later start k byte rest h (t, at, in_range, low, high) =
    (t + 8, omega arith, omega arith, omega (arith, pow_eight t), omega (arith, pow_eight t))

index_from-IsTop :
    (start : ℕ) (bytes : Text) → IsBytes bytes → IsTop start bytes (index_from start bytes)
unfolding index_from is_top
index_from-IsTop start [] w = refl
index_from-IsTop start (byte ∷ rest) w =
    let h = index_from-IsTop (start + 1) rest w.1 in
    elim (Option-cases (index_from (start + 1) rest)) [
      | inr (k, e) ↦ let later = rw e at h in rw e (IsTop-later start k byte rest w.0 later)
      | inl e ↦
          let nothing = rw e at h in
          let top = table_entry 256 _ byte w.0 top_bit_table in
          elim (Option-cases (top_bit byte 7)) [
            | inl f ↦
                let t = rw f at top in
                let z : (byte == 0) ≡ true = ground (arith, t) in
                rw (e, f, z) (omega (arith, nothing, (==_iff byte 0).0 z))
            | inr (bit, f) ↦
                let t = rw f at top in
                let z : (byte == 0) ≡ false = ground (arith, t) in
                let low : 2 ^ bit ≤ byte = ground (arith, t) in
                let high : byte < 2 ^ suc bit = ground (arith, t) in
                let small : bit < 8 = ground (arith, t) in
                rw (e, f, z)
                  (bit, refl, omega arith, omega (arith, nothing), omega (arith, nothing))
          ]
    ]

length-xor_bytes : (a b : Text) → length (xor_bytes a b) ≡ min (length a) (length b)
length-xor_bytes [] b = omega arith
length-xor_bytes (x ∷ a) [] = omega arith
length-xor_bytes (x ∷ a) (y ∷ b) = omega (arith, length-xor_bytes a b)

in_range :
    (r : Option ℕ) (bytes : Text)
    → length bytes ≤ 20
    → IsTop 0 bytes r
    → (elim r [ none ↦ 0 | some index ↦ index ]) < 160
in_range none bytes h w = omega arith
in_range (some k) bytes h (t, at, small, low, high) = omega arith

module _ (local_id target_id : Text) (w : IsBytes local_id) (v : IsBytes target_id) where
  distance : Text
  distance = xor_bytes local_id target_id

  found : IsTop 0 distance (index_from 0 distance)
  unfolding distance
  found =
      index_from-IsTop 0 (xor_bytes local_id target_id) (xor_bytes-IsBytes local_id target_id w v)

  -- The index of every contact is that of one of the 160 buckets.
  pub bucket_index_in_range : length local_id ≤ 20 → bucket_index local_id target_id < 160
  unfolding bucket_index distance
  bucket_index_in_range h =
      in_range (index_from 0 distance) distance (omega (arith, length-xor_bytes local_id target_id))
        found

  -- For ids of bytes that differ in a byte that both have, the bucket index is the position of the
  -- highest one bit of their exclusive or, the last byte the most significant.
  pub bucket_index_highest :
      0 < little_endian (xor_bytes local_id target_id)
      → (2 ^ bucket_index local_id target_id ≤ little_endian (xor_bytes local_id target_id))
        × (little_endian (xor_bytes local_id target_id) < 2 ^ suc (bucket_index local_id target_id))
  unfolding bucket_index distance
  bucket_index_highest h = elim (Option-cases (index_from 0 distance)) [
    | inl e ↦ let nothing = rw e at found in absurd (omega (arith, nothing))
    | inr (k, e) ↦
        let (t, at, small, low, high) = rw e at found in
        let same : k ≡ t = omega arith in
        let value = little_endian distance in
        let low_k : 2 ^ k ≤ value = rw same low in
        let high_k : value < 2 ^ suc k = rw same high in rw (e, bucket_index) (low_k, high_k)
  ]

wrap_shift : (x p c : ℕ) → (u64 x * p + c) % 2 ^ 64 ≡ (x * p + c) % 2 ^ 64
wrap_shift x p c =
    sym (mul-add-mod_self_left (2 ^ 64) (x / 2 ^ 64 * p) (u64 x * p + c))
    ∙ ap (λ y. y % 2 ^ 64) (omega (arith, ap (λ y. y * p) (div-add-mod x (2 ^ 64))))

fold_distance_lem :
    (r : ℕ) (bytes : Text)
    → r < 2 ^ 64
    → IsBytes bytes
    → fold_distance r bytes ≡ (r * 256 ^ length bytes + big_endian bytes) % 2 ^ 64
unfolding fold_distance
fold_distance_lem r [] h w = omega arith
fold_distance_lem r (byte ∷ rest) h w =
    fold_distance_lem (u64 (r * 256) + byte) rest (omega (arith, w.0)) w.1
    ∙ ap (λ y. y % 2 ^ 64) (omega arith)
    ∙ wrap_shift (r * 256) (256 ^ length rest) (byte * 256 ^ length rest + big_endian rest)
    ∙ ap (λ y. y % 2 ^ 64)
        (omega (arith, pow-suc 256 (length rest), ap (λ y. r * y) (pow-suc 256 (length rest))))

-- For ids of bytes xorDistance is their exclusive or, the first byte the most significant, modulo
-- 2^64.
pub xor_distance_mod :
    (a b : Text) → IsBytes a → IsBytes b → xor_distance a b ≡ big_endian (xor_bytes a b) % 2 ^ 64
unfolding xor_distance
xor_distance_mod a b w v =
    fold_distance_lem 0 (xor_bytes a b) (omega arith) (xor_bytes-IsBytes a b w v)
    ∙ ap (λ y. y % 2 ^ 64) (omega arith)

xor_table_self : passes_below 256 (λ x. bit_xor x x == 0) ≡ true
unfolding passes_below
xor_table_self = refl

All-append_right : (a s : Text) → IsBytes (a ++ s) → IsBytes s
All-append_right [] s w = w
All-append_right (x ∷ a) s w = All-append_right a s w.1

big_endian_self : (s : Text) → IsBytes s → big_endian (xor_bytes s s) ≡ 0
big_endian_self [] w = refl
big_endian_self (x ∷ s) w =
    let zero_byte : bit_xor x x ≡ 0 =
      (==_iff (bit_xor x x) 0).0 (table_entry 256 _ x w.0 xor_table_self) in
    rw zero_byte (omega (arith, big_endian_self s w.1))

xor_bytes-append :
    (a b s t : Text)
    → length a ≡ length b
    → xor_bytes (a ++ s) (b ++ t) ≡ xor_bytes a b ++ xor_bytes s t
xor_bytes-append [] [] s t h = refl
xor_bytes-append [] (y ∷ b) s t h = absurd (omega arith)
xor_bytes-append (x ∷ a) [] s t h = absurd (omega arith)
xor_bytes-append (x ∷ a) (y ∷ b) s t h =
    ap (◌∷◌ (bit_xor x y)) (xor_bytes-append a b s t (omega arith))

pow_four_bytes : (t : ℕ) → 256 ^ suc (suc (suc (suc t))) ≡ 4294967296 * 256 ^ t
pow_four_bytes t = omega (
  arith,
  pow-suc 256 t,
  pow-suc 256 (suc t),
  pow-suc 256 (suc (suc t)),
  pow-suc 256 (suc (suc (suc t))),
)

pow_eight_bytes : (t : ℕ) → 256 ^ (t + 8) ≡ 2 ^ 64 * 256 ^ t
pow_eight_bytes t =
    let later : suc (suc (suc (suc (suc (suc (suc (suc t))))))) ≡ t + 8 = omega arith in
    rw⁻¹ later (omega (arith, pow_four_bytes t, pow_four_bytes (suc (suc (suc (suc t))))))

high_bytes :
    (a s : Text) → length s ≡ 8 → (q : ℕ) × (big_endian (a ++ s) ≡ 2 ^ 64 * q + big_endian s)
high_bytes [] s h = (0, omega arith)
high_bytes (x ∷ a) s h =
    let (q, e) = high_bytes a s h in
    let size : length (a ++ s) ≡ length a + 8 = omega (arith, length-append a s) in
    (x * 256 ^ length a + q, rw (size, pow_eight_bytes (length a)) (omega (arith, e)))

-- Two ids with the same last eight of their bytes have distance 0, whatever the bytes before.
pub xor_distance_blind :
    (a b s : Text)
    → length a ≡ length b
    → length s ≡ 8
    → IsBytes (a ++ s)
    → IsBytes (b ++ s)
    → xor_distance (a ++ s) (b ++ s) ≡ 0
xor_distance_blind a b s h k w v =
    let (q, e) = high_bytes (xor_bytes a b) (xor_bytes s s) (omega (arith, length-xor_bytes s s)) in
    let self = big_endian_self s (All-append_right a s w) in
    xor_distance_mod (a ++ s) (b ++ s) w v ∙ rw (xor_bytes-append a b s s h, e, self) (omega arith)
