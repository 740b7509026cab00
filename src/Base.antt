-- ===== src/Base.antt =====
-- What the modules share: the libraries' names, Boolean tests, lists and text.
mod Tests
mod Lists
mod Text
mod Counting
pub mod Int
pub use Counting.*
pub use Tests.*
pub use Lists.*
pub use Text.*
pub use Text.Laws.*
unfoldable pub use Text.{cut, trim_space, strip_prefix?, show_ℕ, concat, join, sort_strings}
pub use Prim.Native.Nat.{ℕ, zero, suc, ◌+◌, ◌-◌, ◌*◌, ◌/◌, ◌%◌, ◌^◌, ◌≤◌, ◌<◌}
pub use Prim.Native.String.{String}
pub use mathlib.Core.Path.{◌≡◌, refl, sym, ap, ◌∙◌, subst}
pub use mathlib.Core.Logic.{◌≢◌, ◌↔◌, ◌⊎◌, inl, inr}
pub use mathlib.Core.Bool.{Bool, true, false, not, ◌&&◌, ◌||◌}
pub use mathlib.Core.Option.{Option, none, some}
pub use mathlib.Core.List.{List, [], ◌∷◌, ◌++◌, map}
pub use native.Mathlib.Omega.{arith}
pub use text.Mathlib.TextEquality.{eq_iff}
pub use text.Mathlib.TextPositions.{eq_refl}
