-- ===== src/Prelude.antt =====
-- The names that every module shares: those of the libraries, passed on, and those of the children,
-- which are Boolean tests, lists under native numbers, C strings and chains of optional results.
mod Tests
mod Lists
mod Strings
mod Options
mod Search
pub use Tests.*
pub use Lists.*
unfoldable pub use Strings.*
pub use Options.*
unfoldable pub use Search.*
pub use Prim.Native.Nat.{ℕ, zero, suc, ◌+◌, ◌-◌, ◌*◌, ◌/◌, ◌%◌, ◌^◌, ◌≤◌, ◌<◌, min}
pub use mathlib.Core.Path.{◌≡◌, refl, sym, ap, ap₂, ◌∙◌}
pub use mathlib.Core.Logic.{◌≢◌, ◌↔◌, ◌⊎◌, inl, inr}
pub use mathlib.Core.Bool.{Bool, true, false, not, ◌&&◌, ◌||◌}
pub use mathlib.Core.Option.{Option, none, some}
pub use mathlib.Core.List.{List, [], ◌∷◌, ◌++◌, map, append_assoc, append-nil}
pub use native.Mathlib.Omega.{arith}
