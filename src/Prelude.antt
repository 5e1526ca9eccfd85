-- ===== src/Prelude.antt =====
-- Names shared by every module: the libraries', passed on, and those of the child modules.
mod Tests
mod Lists
mod Texts
mod Strip
mod Decimal
mod Ranges
pub use Tests.*
pub use Lists.*
unfoldable pub use Texts.*
unfoldable pub use Strip.*
unfoldable pub use Decimal.*
pub use Ranges.*
pub use Prim.Native.Nat.{ℕ, zero, suc, ◌+◌, ◌-◌, ◌*◌, ◌/◌, ◌%◌, ◌^◌, ◌≤◌, ◌<◌, min, max}
pub use Prim.Native.String.{String}
pub use mathlib.Core.Path.{◌≡◌, refl, sym, ap, ◌∙◌, subst}
pub use mathlib.Core.Logic.{◌≢◌, ◌↔◌, ◌⊎◌, inl, inr}
pub use mathlib.Core.Bool.{Bool, true, false, not, ◌&&◌, ◌||◌}
pub use mathlib.Core.Option.{Option, none, some}
pub use mathlib.Core.List.{List, [], ◌∷◌, ◌++◌, map, append_assoc, reverse}
pub use native.Mathlib.Omega.{arith}
