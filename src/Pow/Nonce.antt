-- ===== src/Pow/Nonce.antt =====
-- The search loop that FindNonce (src/p2p/pow.go) and SolvePuzzle (src/crypto/puzzle.go) share:
-- the least nonce below a bound that passes a test.
use native.Mathlib.Decide.{ℕ_discrete}
use web5_mesh.Base.{
  ℕ, zero, suc, ◌+◌, ◌≡◌, ◌≤◌, ◌<◌, Bool, true, false, Option, none, some, arith, Bool-cases, inl,
  inr,
}

-- The first argument counts the nonces that are left.
unfoldable pub first_nonce : ℕ → (ℕ → Bool) → ℕ → Option ℕ
first_nonce zero p nonce = none
first_nonce (suc left) p nonce = elim (p nonce) [
  | true ↦ some nonce
  | false ↦ first_nonce left p (nonce + 1)
]

-- The least passing nonce at or after the start and below the end, or none if there is no such
-- nonce.
abbrev pub IsFirst : (ℕ → Bool) → ℕ → ℕ → Option ℕ → Type 0
IsFirst p start end none = (n : ℕ) → start ≤ n → n < end → p n ≡ false
IsFirst p start end (some found) =
    (start ≤ found)
    × (found < end)
    × (p found ≡ true)
    × ((n : ℕ) → start ≤ n → n < found → p n ≡ false)

IsFirst-next :
    (p : ℕ → Bool) (start end : ℕ) (r : Option ℕ)
    → p start ≡ false
    → IsFirst p (start + 1) end r
    → IsFirst p start end r
IsFirst-next p start end none e h =
    λ n a b. elim (ℕ_discrete n start) [ yes same ↦ rw same e | no other ↦ h n (omega arith) b ]
IsFirst-next p start end (some found) e h = (
  omega (arith, h.0),
  h.1,
  h.2,
  λ n a b. elim (ℕ_discrete n start) [ yes same ↦ rw same e | no other ↦ h.3 n (omega arith) b ],
)

pub first_nonce-IsFirst :
    (left : ℕ) (p : ℕ → Bool) (start : ℕ)
    → IsFirst p start (start + left) (first_nonce left p start)
unfolding first_nonce
first_nonce-IsFirst zero p start = λ n a b. absurd (omega arith)
first_nonce-IsFirst (suc left) p start = elim (Bool-cases (p start)) [
  | inl e ↦ rw (e, first_nonce) (omega arith, omega arith, e, λ n a b. absurd (omega arith))
  | inr e ↦
      rw (e, first_nonce)
        (IsFirst-next p start (start + suc left) _ e (
          let same : start + 1 + left ≡ start + suc left = omega arith in
          rw same at (first_nonce-IsFirst left p (start + 1))))
]
