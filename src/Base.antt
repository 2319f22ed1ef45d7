-- ===== src/Base.antt =====
-- The names that the other modules share: the libraries', passed on, and those of the children
-- (tests and equality, results, lists, the JavaScript `Map`).
mod Tests
mod Results
mod Lists
mod Tables
mod Counted
mod Texts
mod Sorting
mod Json
mod Decimal
mod Digits
pub mod Documents
pub use Tests.*
pub use Results.*
pub use Lists.*
unfoldable pub use Tables.*
pub use Counted.*
unfoldable pub use Texts.*
pub use Sorting.*
unfoldable pub use Json.*
unfoldable pub use Decimal.*
pub use Digits.*
pub use Prim.Native.Nat.{ℕ, zero, suc, ◌+◌, ◌-◌, ◌*◌, ◌/◌, ◌%◌, ◌^◌, ◌≤◌, ◌<◌}
pub use Prim.Native.String.{String}
pub use mathlib.Core.Path.{◌≡◌, refl, sym, ap, ◌∙◌, subst}
pub use mathlib.Core.Logic.{◌≢◌, ◌↔◌, ◌⊎◌, inl, inr}
pub use mathlib.Core.Bool.{Bool, true, false, not, ◌&&◌, ◌||◌}
pub use mathlib.Core.Option.{Option, none, some}
pub use mathlib.Core.List.{List, [], ◌∷◌, ◌++◌, map}
pub use native.Mathlib.Omega.{arith}
pub use text.Mathlib.TextEquality.{eq_iff}
