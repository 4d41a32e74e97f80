-- ===== src/Base.antt =====
-- What the other modules share: names of the libraries passed on, Boolean tests, lists measured by
-- native numbers, byte strings, Go's maps and Go's signed integers.
mod Conditions
mod Lists
mod Equality
mod Text
pub mod Dict
pub mod Decimal
pub use Conditions.*
pub use Lists.*
unfoldable pub use Equality.*
unfoldable pub use Text.*
pub use Prim.Native.Nat.{ℕ, zero, suc, ◌+◌, ◌-◌, ◌*◌, ◌/◌, ◌%◌, ◌^◌, ◌≤◌, ◌<◌}
pub use Prim.Native.String.{String}
pub use mathlib.Core.Path.{◌≡◌, refl, sym, ap, ◌∙◌}
pub use mathlib.Core.Logic.{◌≢◌, ◌↔◌, ◌⊎◌, inl, inr}
pub use mathlib.Core.Bool.{Bool, true, false, not, ◌&&◌, ◌||◌}
pub use mathlib.Core.Option.{Option, none, some}
pub use mathlib.Core.List.{List, [], ◌∷◌, ◌++◌, map, append_assoc, append-nil}
pub use native.Mathlib.Omega.{arith}
