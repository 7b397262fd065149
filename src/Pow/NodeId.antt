-- ===== src/Pow/NodeId.antt =====
-- FindNonce and ValidateNodeID of src/p2p/pow.go, and GenerateNodeIDFromPubKey of
-- src/p2p/kademlia.go.
use native.Mathlib.Decide.{dec_lt}
use web5_mesh.Base.{
  ℕ, ◌≡◌, ◌≤◌, ◌<◌, refl, Bool, true, false, ◌&&◌, Option, none, some, arith, Option-cases, inl,
  inr, take, length, ltb, if◌then◌else◌,
}
use web5_mesh.Base.Int.{ℤ, pos}
use web5_mesh.Base.Classes.{Text, text_eq, text_eq_iff}
use web5_mesh.Pow.Nonce.{first_nonce, first_nonce-IsFirst}
use web5_mesh.Pow.Hash.{hash_with_nonce, check_pow}

abbrev pub default_pow_difficulty : ℤ
default_pow_difficulty = pos 4

module _ (sha256 : Text → Text) where
  -- FindNonce; the answer (0, zero hash, false) is `none`.
  unfoldable pub find_nonce : Text → ℤ → ℕ → Option (ℕ × Text)
  unfolding first_nonce hash_with_nonce check_pow
  find_nonce pub_key bits max_attempts =
      elim (first_nonce max_attempts (λ n. check_pow (hash_with_nonce sha256 pub_key n) bits) 0) [
        | none ↦ none
        | some nonce ↦ some (nonce, hash_with_nonce sha256 pub_key nonce)
      ]

  -- With `attempts` the constant 1000000 of the source. Without a nonce the hash of the key
  -- itself is used. Either way a log line slices the first eight bytes of the key: `none` is its
  -- panic.
  unfoldable pub generate_node_id : ℕ → Text → Option Text
  unfolding find_nonce
  generate_node_id attempts pub_key =
      if ltb (length pub_key) 8
      then none
      else elim (find_nonce pub_key default_pow_difficulty attempts) [
        | none ↦ some (take 20 (sha256 pub_key))
        | some (nonce, hash) ↦ some (take 20 hash)
      ]

  -- The loop over the 20 bytes compares the id with the hash's first 20 bytes.
  unfoldable pub validate_node_id : Text → Text → ℕ → ℤ → Bool
  unfolding hash_with_nonce check_pow
  validate_node_id node_id pub_key nonce bits =
      let expected_hash = hash_with_nonce sha256 pub_key nonce in
      text_eq (take 20 expected_hash) node_id && check_pow expected_hash bits

  search : Text → ℤ → ℕ → Option ℕ
  search pub_key bits attempts =
      first_nonce attempts (λ n. check_pow (hash_with_nonce sha256 pub_key n) bits) 0

  found :
      (pub_key : Text) (bits : ℤ) (attempts nonce : ℕ) (hash : Text)
      → find_nonce pub_key bits attempts ≡ some (nonce, hash)
      → (search pub_key bits attempts ≡ some nonce) × (hash ≡ hash_with_nonce sha256 pub_key nonce)
  unfolding find_nonce search
  found pub_key bits attempts nonce hash e = elim (Option-cases (search pub_key bits attempts)) [
    | inl f ↦ cc (rw (f, find_nonce) at e)
    | inr (n, f) ↦ let g = rw (f, find_nonce) at e in ground arith
  ]

  -- What FindNonce answers: the least nonce below the limit whose hash passes CheckPoW, with that
  -- hash; or nothing, and then no nonce below the limit passes.
  abbrev pub Finds : Text → ℤ → ℕ → Option (ℕ × Text) → Type 0
  Finds pub_key bits attempts none =
      (n : ℕ) → n < attempts → check_pow (hash_with_nonce sha256 pub_key n) bits ≡ false
  Finds pub_key bits attempts (some (nonce, hash)) =
      (nonce < attempts)
      × (hash ≡ hash_with_nonce sha256 pub_key nonce)
      × (check_pow hash bits ≡ true)
      × ((n : ℕ) → n < nonce → check_pow (hash_with_nonce sha256 pub_key n) bits ≡ false)

  -- FindNonce returns the least nonce below the limit whose hash passes CheckPoW, and reports
  -- failure only if there is none.
  pub find_nonce-Finds :
      (pub_key : Text) (bits : ℤ) (attempts : ℕ)
      → Finds pub_key bits attempts (find_nonce pub_key bits attempts)
  unfolding find_nonce search
  find_nonce-Finds pub_key bits attempts =
      let first =
        first_nonce-IsFirst attempts (λ n. check_pow (hash_with_nonce sha256 pub_key n) bits) 0 in
      elim (Option-cases (search pub_key bits attempts)) [
        | inl e ↦
            let none_found = rw e at first in
            rw (e, find_nonce) (λ n h. none_found n (omega arith) (omega arith))
        | inr (nonce, e) ↦
            let least = rw e at first in
            rw (e, find_nonce)
              (omega (arith, least.1), refl, least.2, λ n h. least.3 n (omega arith) h)
      ]

  -- The id made from a hash that FindNonce returns passes ValidateNodeID with its nonce.
  found-valid :
      (pub_key : Text) (bits : ℤ) (attempts nonce : ℕ) (hash : Text)
      → find_nonce pub_key bits attempts ≡ some (nonce, hash)
      → validate_node_id (take 20 hash) pub_key nonce bits ≡ true
  unfolding validate_node_id
  found-valid pub_key bits attempts nonce hash e =
      let f = rw e at (find_nonce-Finds pub_key bits attempts) in
      ground (arith, text_eq_iff (take 20 (hash_with_nonce sha256 pub_key nonce)) (take 20 hash), f)

  -- If some nonce below the limit of attempts passes CheckPoW, GenerateNodeIDFromPubKey makes an id
  -- of a key of at least eight bytes, and ValidateNodeID accepts the id with a nonce that is no
  -- greater.
  pub generate_node_id-valid :
      (attempts : ℕ) (pub_key : Text) (n : ℕ)
      → 8 ≤ length pub_key
      → n < attempts
      → check_pow (hash_with_nonce sha256 pub_key n) default_pow_difficulty ≡ true
      → (id : Text) × (nonce : ℕ) × (generate_node_id attempts pub_key ≡ some id)
        × (nonce ≤ n)
        × (validate_node_id id pub_key nonce default_pow_difficulty ≡ true)
  unfolding generate_node_id
  generate_node_id-valid attempts pub_key n long h p =
      let whole : ltb (length pub_key) 8 ≡ false = ground arith in
      elim (Option-cases (find_nonce pub_key default_pow_difficulty attempts)) [
        | inl e ↦
            let f = rw e at (find_nonce-Finds pub_key default_pow_difficulty attempts) in cc (f n h)
        | inr ((nonce, hash), e) ↦
            let f = rw e at (find_nonce-Finds pub_key default_pow_difficulty attempts) in
            (
              take 20 hash,
              nonce,
              rw (whole, generate_node_id, e) refl,
              elim (dec_lt n nonce) [ yes before ↦ cc (f.3 n before) | no after ↦ omega arith ],
              found-valid pub_key default_pow_difficulty attempts nonce hash e,
            )
      ]
