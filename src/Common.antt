-- ===== src/Common.antt =====
-- The names that the other modules share: the libraries' names, passed on, and those of the
-- children (Boolean tests on numbers, lists measured by native numbers, signed integers).
mod Tests
mod Lists
mod Int
mod Slices
mod CString
mod Bits
mod Text
mod Decimal
mod Strtol
pub use Tests.*
pub use Lists.*
pub use Int.*
pub use Slices.*
unfoldable pub use CString.*
pub use Bits.*
unfoldable pub use Text.*
unfoldable pub use Decimal.*
unfoldable pub use Strtol.*
pub use Prim.Native.Nat.{ℕ, zero, suc, ◌+◌, ◌-◌, ◌*◌, ◌/◌, ◌%◌, ◌^◌, ◌≤◌, ◌<◌, min, max}
pub use mathlib.Core.Path.{◌≡◌, refl, sym, ap, ap₂, ◌∙◌}
pub use mathlib.Core.Logic.{◌≢◌, ◌↔◌, ◌⊎◌, inl, inr}
pub use mathlib.Core.Bool.{Bool, true, false, not, ◌&&◌, ◌||◌}
pub use mathlib.Core.Option.{Option, none, some}
pub use mathlib.Core.List.{List, [], ◌∷◌, append-nil, append_assoc}
pub use native.Mathlib.Omega.{arith}
unfoldable pub use mathlib.Core.List.{◌++◌}
