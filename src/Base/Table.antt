-- ===== src/Base/Table.antt =====
-- Statements on all small numbers, checked by running a test on each.
use mathlib.Core.Bool.{Bool, true, false}
use mathlib.Core.Path.{◌≡◌}
use native.Mathlib.Omega.{arith}
use Prim.Native.Nat.{ℕ, zero, suc, ◌<◌}
use web5_mesh.Base.Tests.{if◌then◌else◌}

-- The test passes on each number below the bound.
unfoldable pub passes_below : ℕ → (ℕ → Bool) → Bool
passes_below zero test = true
passes_below (suc last) test = if test last then passes_below last test else false

pub table_entry :
    (bound : ℕ) (test : ℕ → Bool) (k : ℕ)
    → k < bound
    → passes_below bound test ≡ true
    → test k ≡ true
unfolding passes_below
table_entry zero test k small table = absurd (omega arith)
table_entry (suc last) test k small table = ground (arith, table_entry last test k)
