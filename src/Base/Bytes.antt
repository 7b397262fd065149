-- ===== src/Base/Bytes.antt =====
-- Byte strings: literals, prefixes, big-endian words and bytes.Compare.
use Prim.Native.Char.{code}
use Prim.Native.String.{String}
use mathlib.Core.Path.{◌≡◌, refl}
use mathlib.Core.Bool.{Bool, true, false}
use mathlib.Core.List.{[], ◌∷◌}
use native.Mathlib.Omega.{arith}
use web5_mesh.Base.Tests.{ltb, if◌then◌else◌}
use web5_mesh.Base.Classes.{Text}

-- The bytes of an ASCII literal.
abbrev pub codes : String → Text
codes String.[] = []
codes (String.◌∷◌ c s) = code c ∷ codes s

-- `bytes.Compare(a, b) < 0`, and `a < b` on strings: the lexicographic order.
unfoldable pub before : Text → Text → Bool
before [] [] = false
before [] (y ∷ ys) = true
before (x ∷ xs) [] = false
before (x ∷ xs) (y ∷ ys) = if ltb x y then true else if ltb y x then false else before xs ys

pub before_irrefl : (s : Text) → before s s ≡ false
unfolding before
before_irrefl [] = refl
before_irrefl (x ∷ xs) = ground (arith, before_irrefl xs)

pub before_asymm : (s t : Text) → before s t ≡ true → before t s ≡ false
unfolding before
before_asymm [] [] h = refl
before_asymm [] (y ∷ ys) h = refl
before_asymm (x ∷ xs) [] h = cc
before_asymm (x ∷ xs) (y ∷ ys) h = ground (arith, before_asymm xs ys)

pub before_trans : (s t u : Text) → before s t ≡ true → before t u ≡ true → before s u ≡ true
unfolding before
before_trans [] t [] h k = grind (arith)
before_trans [] t (z ∷ zs) h k = refl
before_trans (x ∷ xs) [] u h k = cc
before_trans (x ∷ xs) (y ∷ ys) [] h k = cc
before_trans (x ∷ xs) (y ∷ ys) (z ∷ zs) h k = ground (arith, before_trans xs ys zs)

-- Two texts neither of which comes before the other are one text.
pub before_total : (s t : Text) → before s t ≡ false → before t s ≡ false → s ≡ t
unfolding before
before_total [] [] h k = refl
before_total [] (y ∷ ys) h k = cc
before_total (x ∷ xs) [] h k = cc
before_total (x ∷ xs) (y ∷ ys) h k = ground (arith, before_total xs ys)
