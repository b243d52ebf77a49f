-- ===== src/Base.antt =====
-- The names that the other modules share: the libraries', passed on, the Boolean tests, the list
-- functions over the native numbers, the result type of the services and their transactions.
mod Tests
mod Lists
mod Outcome
mod Rows
mod Queries
mod Texts
pub use Tests.*
pub use Lists.*
pub use Outcome.*
pub use Rows.*
pub use Queries.*
pub use Texts.*
pub use Prim.Native.Nat.{ℕ, zero, suc, ◌+◌, ◌-◌, ◌*◌, ◌/◌, ◌%◌, ◌≤◌, ◌<◌, min, max}
pub use mathlib.Core.Path.{◌≡◌, refl, sym, ap, ◌∙◌, subst}
pub use mathlib.Core.Logic.{◌≢◌, ◌↔◌, ◌⊎◌, inl, inr}
pub use mathlib.Core.Bool.{Bool, true, false, not, ◌&&◌, ◌||◌}
pub use mathlib.Core.Option.{Option, none, some}
pub use mathlib.Core.List.{List, [], ◌∷◌, ◌++◌}
unfoldable pub use mathlib.Core.List.{map}
pub use native.Mathlib.Omega.{arith}
