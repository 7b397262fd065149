-- ===== src/Base/Map.antt =====
-- Go's built-in maps, as association lists with distinct keys. Iteration goes in list order:
-- the order of the list is the order that a `range` over the map happens to take.
use mathlib.Core.Bool.{false}
use mathlib.Core.Logic.{◌≢◌}
use mathlib.Core.Path.{◌≡◌, refl, sym, ◌∙◌}
use mathlib.Core.List.{List, [], ◌∷◌, ◌++◌, append-nil, append_assoc}
use mathlib.Core.Option.{Option, none, some}
use native.Mathlib.Omega.{arith}
use web5_mesh.Base.Tests.{if◌then◌else◌}
use web5_mesh.Base.Classes.{Eq, eqb}

module _ {ℓ κ} {K : Type ℓ} {V : Type κ} ⦃e : Eq K⦄ where
  unfoldable pub lookup : K → List (K × V) → Option V
  lookup k [] = none
  lookup k ((j, v) ∷ m) = if eqb j k then some v else lookup k m

  unfoldable pub insert : K → V → List (K × V) → List (K × V)
  insert k v [] = (k, v) ∷ []
  insert k v ((j, w) ∷ m) = if eqb j k then (k, v) ∷ m else (j, w) ∷ insert k v m

  unfoldable pub erase : K → List (K × V) → List (K × V)
  erase k [] = []
  erase k ((j, w) ∷ m) = if eqb j k then m else (j, w) ∷ erase k m

  -- No key stands twice, as in every Go map.
  abbrev pub Distinct : List (K × V) → Type κ
  Distinct [] = Unit
  Distinct ((k, v) ∷ m) = (lookup k m ≡ none) × Distinct m

  pub lookup-insert :
      (k j : K) (v : V) (m : List (K × V))
      → lookup j (insert k v m) ≡ (if eqb k j then some v else lookup j m)
  unfolding lookup insert
  lookup-insert k j v [] = refl
  lookup-insert k j v ((i, w) ∷ m) =
      ground (arith, e.beq_iff k j, e.beq_iff i k, e.beq_iff i j, lookup-insert k j v m)

  pub lookup-insert_self : (k : K) (v : V) (m : List (K × V)) → lookup k (insert k v m) ≡ some v
  lookup-insert_self k v m = ground (arith, lookup-insert k k v m, e.beq_iff k k)

  pub lookup-insert_other :
      (k j : K) (v : V) (m : List (K × V)) → j ≢ k → lookup j (insert k v m) ≡ lookup j m
  lookup-insert_other k j v m n = ground (arith, lookup-insert k j v m, e.beq_iff k j)

  pub insert-Distinct : (k : K) (v : V) (m : List (K × V)) → Distinct m → Distinct (insert k v m)
  unfolding lookup insert
  insert-Distinct k v [] d = (refl, tt)
  insert-Distinct k v ((i, w) ∷ m) d =
      ground (arith, e.beq_iff i k, e.beq_iff k i, lookup-insert k i v m, insert-Distinct k v m)

  pub lookup-erase_other : (k j : K) (m : List (K × V)) → j ≢ k → lookup j (erase k m) ≡ lookup j m
  unfolding lookup erase
  lookup-erase_other k j [] n = refl
  lookup-erase_other k j ((i, w) ∷ m) n =
      ground (arith, e.beq_iff i k, e.beq_iff i j, lookup-erase_other k j m n)

  pub lookup-erase : (k : K) (m : List (K × V)) → Distinct m → lookup k (erase k m) ≡ none
  unfolding lookup erase
  lookup-erase k [] d = refl
  lookup-erase k ((i, w) ∷ m) d = ground (arith, e.beq_iff i k, lookup-erase k m d.1)

  pub erase-Distinct : (k : K) (m : List (K × V)) → Distinct m → Distinct (erase k m)
  unfolding lookup erase
  erase-Distinct k [] d = tt
  erase-Distinct k ((i, w) ∷ m) d =
      ground (arith, e.beq_iff i k, lookup-erase_other k i m, erase-Distinct k m)

  -- `for k, v := range r { m[k] = v }`
  unfoldable pub insert_all : List (K × V) → List (K × V) → List (K × V)
  insert_all [] m = m
  insert_all ((k, v) ∷ r) m = insert_all r (insert k v m)

  pub insert_all-Distinct : (r m : List (K × V)) → Distinct m → Distinct (insert_all r m)
  unfolding insert_all
  insert_all-Distinct [] m d = d
  insert_all-Distinct ((k, v) ∷ r) m d =
      insert_all-Distinct r (insert k v m) (insert-Distinct k v m d)

  insert_absent :
      (k : K) (v : V) (m : List (K × V)) → lookup k m ≡ none → insert k v m ≡ m ++ (k, v) ∷ []
  unfolding lookup insert
  insert_absent k v [] h = refl
  insert_absent k v ((i, w) ∷ m) h = ground (arith, insert_absent k v m)

  lookup-append_absent :
      (k j : K) (v : V) (m : List (K × V))
      → lookup j m ≡ none
      → eqb k j ≡ false
      → lookup j (m ++ (k, v) ∷ []) ≡ none
  unfolding lookup
  lookup-append_absent k j v [] h n = ground arith
  lookup-append_absent k j v ((i, w) ∷ m) h n = ground (arith, lookup-append_absent k j v m)

  -- None of the keys of the first map is in the second.
  abbrev Fresh : List (K × V) → List (K × V) → Type κ
  Fresh [] m = Unit
  Fresh ((k, v) ∷ r) m = (lookup k m ≡ none) × Fresh r m

  Fresh-append :
      (r m : List (K × V)) (k : K) (v : V)
      → lookup k r ≡ none
      → Fresh r m
      → Fresh r (m ++ (k, v) ∷ [])
  unfolding lookup
  Fresh-append [] m k v h f = tt
  Fresh-append ((i, w) ∷ r) m k v h f = (
    lookup-append_absent k i v m f.0 (ground (arith, e.beq_iff k i, e.beq_iff i k)),
    Fresh-append r m k v (ground arith) f.1,
  )

  insert_all-append : (r m : List (K × V)) → Distinct r → Fresh r m → insert_all r m ≡ m ++ r
  unfolding insert_all
  insert_all-append [] m d f = sym (append-nil m)
  insert_all-append ((k, v) ∷ r) m d f = rw (insert_absent k v m f.0) (
      insert_all-append r (m ++ (k, v) ∷ []) d.1 (Fresh-append r m k v d.0 f.1)
      ∙ append_assoc m ((k, v) ∷ []) r)

  Fresh-nil : (r : List (K × V)) → Fresh r []
  unfolding lookup
  Fresh-nil [] = tt
  Fresh-nil ((k, v) ∷ r) = (refl, Fresh-nil r)

  -- Copying a map entry by entry gives the same map.
  pub insert_all-nil : (r : List (K × V)) → Distinct r → insert_all r [] ≡ r
  insert_all-nil r d = insert_all-append r [] d (Fresh-nil r)
