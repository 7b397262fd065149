-- ===== src/Base/ExchangeSort.antt =====
-- The exchange sort that FindClosest (src/p2p/kademlia.go) and GetTopRelays
-- (src/reputation/score.go) both write out as a double loop.
use Prim.Native.Nat.{ℕ, zero, suc, ◌≤◌}
use mathlib.Core.Path.{◌≡◌, refl}
use mathlib.Core.Bool.{Bool, true, false, ◌||◌}
use mathlib.Core.List.{List, [], ◌∷◌, Perm}
use mathlib.Core.List.Perm
use mathlib.Core.Logic.{inl, inr}
use native.Mathlib.Omega.{arith}
use web5_mesh.Base.Tests.{if◌then◌else◌, Bool-cases}
use web5_mesh.Base.Lists.{length, any, All, IsSorted, length-perm}

module _ {ℓ} {A : Type ℓ} (swaps : A → A → Bool) where
  -- The inner loop: the first argument is entry i, the second are entries j = i + 1 and on. An
  -- entry j with `swaps a[i] a[j]` changes places with entry i.
  unfoldable pub pass : A → List A → A × List A
  pass x [] = (x, [])
  pass x (y ∷ ys) =
      let exchanged : A × List A = (let (m, r) = pass y ys in (m, x ∷ r)) in
      let kept : A × List A = (let (m, r) = pass x ys in (m, y ∷ r)) in
      if swaps x y then exchanged else kept

  -- The outer loop, over the entries that are left.
  pub rounds : ℕ → List A → List A
  rounds zero xs = xs
  rounds (suc n) [] = []
  rounds (suc n) (x ∷ xs) = let (m, r) = pass x xs in m ∷ rounds n r

  unfoldable pub sort : List A → List A
  unfolding pass rounds
  sort xs = rounds (length xs) xs

  pass-perm : (x : A) (ys : List A) → Perm ((pass x ys).0 ∷ (pass x ys).1) (x ∷ ys)
  unfolding pass
  pass-perm x [] = Perm.refl (x ∷ [])
  pass-perm x (y ∷ ys) = elim (Bool-cases (swaps x y)) [
    | inl e ↦ rw e (Perm.trans (Perm.swap x _ _) (Perm.cons x (pass-perm y ys)))
    | inr e ↦ rw e (
        Perm.trans (Perm.swap y _ _) (Perm.trans (Perm.cons y (pass-perm x ys)) (Perm.swap x y ys)))
  ]

  pass-length : (x : A) (ys : List A) → length (pass x ys).1 ≡ length ys
  pass-length x ys = omega (arith, length-perm (pass-perm x ys))

  rounds-perm : (n : ℕ) (xs : List A) → Perm (rounds n xs) xs
  unfolding rounds
  rounds-perm zero xs = Perm.refl xs
  rounds-perm (suc n) [] = Perm.refl []
  rounds-perm (suc n) (x ∷ xs) =
      Perm.trans (Perm.cons _ (rounds-perm n (pass x xs).1)) (pass-perm x xs)

  -- The sort keeps the entries.
  pub sort-perm : (xs : List A) → Perm (sort xs) xs
  unfolding sort
  sort-perm xs = rounds-perm (length xs) xs

  module _ {κ} (P : A → Type κ) where
    pass-All : (x : A) (ys : List A) → P x → All P ys → P (pass x ys).0 × All P (pass x ys).1
    unfolding pass
    pass-All x [] p h = (p, tt)
    pass-All x (y ∷ ys) p h = elim (Bool-cases (swaps x y)) [
      | inl e ↦ rw e (let (q, r) = pass-All y ys h.0 h.1 in (q, (p, r)))
      | inr e ↦ rw e (let (q, r) = pass-All x ys p h.1 in (q, (h.0, r)))
    ]

    rounds-All : (n : ℕ) (xs : List A) → All P xs → All P (rounds n xs)
    unfolding rounds
    rounds-All zero xs h = h
    rounds-All (suc n) [] h = tt
    rounds-All (suc n) (x ∷ xs) h =
        let (p, r) = pass-All x xs h.0 h.1 in (p, rounds-All n (pass x xs).1 r)

    pub sort-All : (xs : List A) → All P xs → All P (sort xs)
    unfolding sort
    sort-All xs h = rounds-All (length xs) xs h

  module _ (p : A → Bool) where
    pass-any : (x : A) (ys : List A) → (p (pass x ys).0 || any p (pass x ys).1) ≡ (p x || any p ys)
    unfolding pass
    pass-any x [] = refl
    pass-any x (y ∷ ys) = elim (Bool-cases (swaps x y)) [
      | inl e ↦ rw e (ground (arith, pass-any y ys))
      | inr e ↦ rw e (ground (arith, pass-any x ys))
    ]

    rounds-any : (n : ℕ) (xs : List A) → any p (rounds n xs) ≡ any p xs
    unfolding rounds
    rounds-any zero xs = refl
    rounds-any (suc n) [] = refl
    rounds-any (suc n) (x ∷ xs) = rw (rounds-any n (pass x xs).1) (pass-any x xs)

    -- The sort holds an entry that passes a test exactly when the input does.
    pub sort-any : (xs : List A) → any p (sort xs) ≡ any p xs
    unfolding sort
    sort-any xs = rounds-any (length xs) xs

  abbrev pub InOrder : A → A → Type 0
  InOrder x y = swaps x y ≡ false

  module _ (asymm : (x y : A) → swaps x y ≡ true → swaps y x ≡ false)
      (chain : (x y z : A) → swaps x y ≡ false → swaps y z ≡ false → swaps x z ≡ false) where
    pass-least :
        (x : A) (ys : List A) → InOrder (pass x ys).0 x × All (InOrder (pass x ys).0) (pass x ys).1
    unfolding pass
    pass-least x [] = (elim (Bool-cases (swaps x x)) [ inl e ↦ asymm x x e | inr e ↦ e ], tt)
    pass-least x (y ∷ ys) = elim (Bool-cases (swaps x y)) [
      | inl e ↦
          rw e (let (p, r) = pass-least y ys in let q = chain _ y x p (asymm x y e) in (q, (q, r)))
      | inr e ↦ rw e (let (p, r) = pass-least x ys in (p, (chain _ x y p e, r)))
    ]

    rounds-IsSorted : (n : ℕ) (xs : List A) → length xs ≤ n → IsSorted InOrder (rounds n xs)
    unfolding rounds
    rounds-IsSorted zero [] h = tt
    rounds-IsSorted zero (x ∷ xs) h = absurd (omega arith)
    rounds-IsSorted (suc n) [] h = tt
    rounds-IsSorted (suc n) (x ∷ xs) h = (
      rounds-All (InOrder (pass x xs).0) n (pass x xs).1 (pass-least x xs).1,
      rounds-IsSorted n (pass x xs).1 (omega (arith, pass-length x xs)),
    )

    -- The sort leaves no pair that the loop would exchange.
    pub sort-IsSorted : (xs : List A) → IsSorted InOrder (sort xs)
    unfolding sort
    sort-IsSorted xs = rounds-IsSorted (length xs) xs (omega arith)
