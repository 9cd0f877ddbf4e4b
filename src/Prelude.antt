-- ===== src/Prelude.antt =====
-- The names that all modules share: the libraries' passed on, Boolean tests, lists, key equality,
-- machine words and dictionaries.
pub mod Tests
pub mod Lists
pub mod Eq
pub mod Words
pub mod Text
pub mod Doubles
pub use Tests.*
unfoldable pub use Lists.*
unfoldable pub use Eq.*
pub use Words.*
pub use Text.*
pub use Prim.Native.Nat.{
  ℕ, zero, suc, ◌+◌, ◌-◌, ◌*◌, ◌/◌, ◌%◌, ◌^◌, ◌≤◌, ◌<◌, compare, Ordering, min,
}
pub use Prim.Native.String.{String}
pub use mathlib.Core.Path.{◌≡◌, refl, sym, ap, subst, ◌∙◌}
pub use mathlib.Core.Logic.{◌≢◌, ◌↔◌, ◌⊎◌, inl, inr}
pub use mathlib.Core.Bool.{Bool, true, false, not, ◌&&◌, ◌||◌}
pub use mathlib.Core.Option.{Option, none, some}
pub use mathlib.Core.List.{List, [], ◌∷◌, ◌++◌, map}
pub use native.Mathlib.Omega.{arith}
