-- ===== src/Base.antt =====
-- Names that every module shares: the libraries', passed on, and those of the children below.
-- No code of the repository is modelled here but the meaning of Go's built-in types.
mod Tests
mod Lists
pub mod Classes
pub mod Map
pub mod Int
pub mod Bytes
pub mod ExchangeSort
pub mod Table
pub use Tests.*
pub use Lists.*
pub use Prim.Native.Nat.{ℕ, zero, suc, ◌+◌, ◌-◌, ◌*◌, ◌/◌, ◌%◌, ◌^◌, ◌≤◌, ◌<◌, min, max}
pub use Prim.Native.String.{String}
pub use mathlib.Core.Path.{◌≡◌, refl, sym, ap, ◌∙◌}
pub use mathlib.Core.Logic.{◌≢◌, ◌↔◌, ◌⊎◌, inl, inr}
pub use mathlib.Core.Bool.{Bool, true, false, ◌&&◌, ◌||◌, not}
pub use mathlib.Core.Option.{Option, none, some}
pub use mathlib.Core.List.{List, [], ◌∷◌, ◌++◌, map, foldl, Mem, Perm}
pub use native.Mathlib.Omega.{arith}
