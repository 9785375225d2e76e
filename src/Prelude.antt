-- ===== src/Prelude.antt =====
-- Names that every component shares: those of the libraries, passed on, and those of the
-- children: Boolean tests, lists over the native numbers, Python's dicts and texts.
mod Tests
mod Lists
mod Dicts
mod Sorted
mod Order
mod Entries
mod Texts
pub use Tests.*
pub use Lists.*
unfoldable pub use Dicts.*
pub use Sorted.*
pub use Order.*
pub use Entries.*
unfoldable pub use Texts.*
pub use Prim.Native.Nat.{ℕ, zero, suc, ◌+◌, ◌-◌, ◌*◌, ◌/◌, ◌%◌, ◌^◌, ◌≤◌, ◌<◌, min, max}
pub use Prim.Native.String.{String}
pub use mathlib.Core.Path.{◌≡◌, refl, sym, ap, subst, ◌∙◌}
pub use mathlib.Core.Logic.{◌≢◌, ◌↔◌, ◌⊎◌, inl, inr}
pub use mathlib.Core.Bool.{Bool, true, false, not, ◌&&◌, ◌||◌}
pub use mathlib.Core.Option.{Option, none, some}
pub use mathlib.Core.List.{List, [], ◌∷◌, ◌++◌, map}
pub use native.Mathlib.Omega.{arith}
