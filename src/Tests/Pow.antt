-- ===== src/Tests/Pow.antt =====
-- Runs of the proof-of-work code (src/p2p/pow.go, src/p2p/gas.go, src/crypto/puzzle.go).
use web5_mesh.Base.{ℕ, ◌≡◌, ◌≤◌, true, some, [], ◌∷◌, arith, refl}
use web5_mesh.Base.Int.{pos}
use web5_mesh.Base.Classes.{Text, Text_eq}
use web5_mesh.Pow.Hash.{hash_with_nonce, check_pow, verify_pow}
use web5_mesh.Pow.NodeId.{
  default_pow_difficulty, generate_node_id, validate_node_id, generate_node_id-valid,
}
use web5_mesh.Pow.Puzzle.{
  PowPuzzle, new_pow_puzzle, nonce_passes, Solves, solve_puzzle, solve_puzzle-Solves, tests_agree,
}
use web5_mesh.Tests.Samples.{checksum, checksum_size, checksum-IsBytes}

abbrev puzzle : PowPuzzle
puzzle = new_pow_puzzle (250 ∷ []) 6

tests_agree_example :
    (verify_pow checksum (250 ∷ []) 6 (pos 6) ≡ some (nonce_passes checksum puzzle 6))
    × (check_pow (hash_with_nonce checksum (250 ∷ []) 6) (pos 6) ≡ nonce_passes checksum puzzle 6)
tests_agree_example = tests_agree checksum checksum_size checksum-IsBytes puzzle 6 (omega arith)

solve_puzzle-Solves_example : Solves checksum puzzle (solve_puzzle checksum puzzle)
solve_puzzle-Solves_example = solve_puzzle-Solves checksum puzzle

abbrev long_key : Text
long_key = 250 ∷ 0 ∷ 0 ∷ 0 ∷ 0 ∷ 0 ∷ 0 ∷ 0 ∷ []

passes : check_pow (hash_with_nonce checksum long_key 6) default_pow_difficulty ≡ true
unfolding check_pow hash_with_nonce
passes = refl

generate_node_id-valid_example :
    (id : Text) × (nonce : ℕ) × (generate_node_id checksum 10 long_key ≡ some id)
    × (nonce ≤ 6)
    × (validate_node_id checksum id long_key nonce default_pow_difficulty ≡ true)
generate_node_id-valid_example =
    generate_node_id-valid checksum 10 long_key 6 (omega arith) (omega arith) passes
