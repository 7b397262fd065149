-- ===== src/Pow/Puzzle.antt =====
-- The Hashcash puzzle of src/crypto/puzzle.go.
use web5_mesh.Base.{
  ℕ, ◌+◌, ◌-◌, ◌^◌, ◌≡◌, ◌≤◌, ◌<◌, refl, Bool, true, false, Option, none, some, ◌++◌, arith, ltb,
  leb, if◌then◌else◌, Option-cases, inl, inr, length, u32,
}
use web5_mesh.Base.Int.{pos}
use web5_mesh.Base.Classes.{Text}
use web5_mesh.Pow.Nonce.{first_nonce, first_nonce-IsFirst}
use web5_mesh.Pow.Hash.{put_uint64, hash_with_nonce, check_pow, verify_pow, count_leading_zero_bits}
use web5_mesh.Pow.Bits.{IsBytes, check_pow-count, verify_hash-count}

pub record PowPuzzle : Type 0 where
  pub target_did : Text
  pub difficulty : ℕ
  pub nonce : ℕ

abbrev pub new_pow_puzzle : Text → ℕ → PowPuzzle
new_pow_puzzle did difficulty = record { target_did = did; difficulty = difficulty; nonce = 0 }

-- The limit of SolvePuzzle: the shift count is a uint32 sum, and a shift by 64 or more gives 0.
unfoldable pub max_iterations : ℕ → ℕ
max_iterations difficulty =
    let shift = u32 (difficulty + 8) in if ltb shift 64 then 2 ^ shift else 0

pub data PowError : Type 0 where
  invalid_identity : PowError
  not_solved : PowError
  not_verified : PowError

module _ (sha256 : Text → Text) where
  -- The method verifyNonce.
  unfoldable pub nonce_passes : PowPuzzle → ℕ → Bool
  unfolding hash_with_nonce count_leading_zero_bits
  nonce_passes p nonce =
      leb (PowPuzzle.difficulty p)
        (count_leading_zero_bits (hash_with_nonce sha256 (PowPuzzle.target_did p) nonce))

  -- VerifyNonce.
  unfoldable pub verify_nonce : PowPuzzle → Bool
  unfolding nonce_passes
  verify_nonce p = nonce_passes p (PowPuzzle.nonce p)

  -- SolvePuzzle: the puzzle it leaves, or none for the error, which leaves it as it was.
  unfoldable pub solve_puzzle : PowPuzzle → Option PowPuzzle
  unfolding first_nonce nonce_passes max_iterations
  solve_puzzle p = elim (first_nonce (max_iterations (PowPuzzle.difficulty p)) (nonce_passes p) 0) [
    | none ↦ none
    | some nonce ↦ some (record p { nonce = nonce })
  ]

  -- ValidateIdentityWithPoW, of the identity's DID; a nil identity is `none`.
  unfoldable pub validate_identity_with_pow : Option Text → ℕ → Option PowError
  unfolding solve_puzzle verify_nonce
  validate_identity_with_pow none difficulty = some invalid_identity
  validate_identity_with_pow (some did) difficulty =
      elim (solve_puzzle (new_pow_puzzle did difficulty)) [
        | none ↦ some not_solved
        | some puzzle ↦ if verify_nonce puzzle then none else some not_verified
      ]

  first : PowPuzzle → Option ℕ
  first p = first_nonce (max_iterations (PowPuzzle.difficulty p)) (nonce_passes p) 0

  -- What SolvePuzzle does to a puzzle: it writes the least passing nonce below the limit, and
  -- nothing else; or no nonce below the limit passes.
  abbrev pub Solves : PowPuzzle → Option PowPuzzle → Type 0
  Solves p none = (n : ℕ) → n < max_iterations (PowPuzzle.difficulty p) → nonce_passes p n ≡ false
  Solves p (some q) =
      (PowPuzzle.target_did q ≡ PowPuzzle.target_did p)
      × (PowPuzzle.difficulty q ≡ PowPuzzle.difficulty p)
      × (PowPuzzle.nonce q < max_iterations (PowPuzzle.difficulty p))
      × (verify_nonce q ≡ true)
      × ((n : ℕ) → n < PowPuzzle.nonce q → nonce_passes p n ≡ false)

  -- SolvePuzzle writes the least nonce below its limit that VerifyNonce accepts and keeps the rest
  -- of the puzzle, and fails only if no nonce below the limit passes.
  pub solve_puzzle-Solves : (p : PowPuzzle) → Solves p (solve_puzzle p)
  unfolding solve_puzzle verify_nonce nonce_passes first
  solve_puzzle-Solves p =
      let h = first_nonce-IsFirst (max_iterations (PowPuzzle.difficulty p)) (nonce_passes p) 0 in
      elim (Option-cases (first p)) [
        | inl e ↦
            let none_found = rw e at h in
            rw (e, solve_puzzle) (λ n lt. none_found n (omega arith) (omega arith))
        | inr (nonce, e) ↦
            let least = rw e at h in
            rw (e, solve_puzzle)
              (refl, refl, omega (arith, least.1), least.2, λ n lt. least.3 n (omega arith) lt)
      ]

  -- A solved puzzle always verifies: the third error of ValidateIdentityWithPoW is never returned,
  -- and the second only when no nonce below the limit passes.
  pub validate_identity_with_pow_lem :
      (did : Text) (difficulty n : ℕ)
      → n < max_iterations difficulty
      → nonce_passes (new_pow_puzzle did difficulty) n ≡ true
      → validate_identity_with_pow (some did) difficulty ≡ none
  unfolding validate_identity_with_pow
  validate_identity_with_pow_lem did difficulty n lt h =
      let s = solve_puzzle-Solves (new_pow_puzzle did difficulty) in
      elim (Option-cases (solve_puzzle (new_pow_puzzle did difficulty))) [
        | inl e ↦ let f = rw e at s in cc (f n lt)
        | inr (q, e) ↦ let f = rw e at s in rw (e, f.3, validate_identity_with_pow) refl
      ]

  -- From difficulty 56 on the limit is 0: the shift has left the 64 bits, and SolvePuzzle fails
  -- without one attempt, whatever the hash.
  pub solve_puzzle_out_of_range :
      (p : PowPuzzle)
      → 56 ≤ PowPuzzle.difficulty p
      → PowPuzzle.difficulty p < 2 ^ 32 - 8
      → solve_puzzle p ≡ none
  unfolding solve_puzzle max_iterations first_nonce
  solve_puzzle_out_of_range p h k = ground arith

  -- For a hash of 32 bytes and a difficulty up to 32, VerifyPoW, CheckPoW and the test of the
  -- puzzle agree on every nonce.
  pub tests_agree :
      ((s : Text) → length (sha256 s) ≡ 32)
      → ((s : Text) → IsBytes (sha256 s))
      → (p : PowPuzzle) (nonce : ℕ) → PowPuzzle.difficulty p ≤ 32
      → (verify_pow sha256 (PowPuzzle.target_did p) nonce (pos (PowPuzzle.difficulty p))
          ≡ some (nonce_passes p nonce))
        × (check_pow
              (hash_with_nonce sha256 (PowPuzzle.target_did p) nonce)
              (pos (PowPuzzle.difficulty p))
            ≡ nonce_passes p nonce)
  unfolding nonce_passes verify_pow hash_with_nonce
  tests_agree size bytes p nonce h =
      let block = PowPuzzle.target_did p ++ put_uint64 nonce in
      let a = check_pow-count (sha256 block) (bytes block) (size block) (PowPuzzle.difficulty p) in
      let b =
        verify_hash-count (sha256 block) (bytes block) (size block) (PowPuzzle.difficulty p)
          (omega arith) in
      ground (arith, a, b)
