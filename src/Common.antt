-- ===== src/Common.antt =====
-- The names that every module shares: the libraries', passed on, and the helpers below.
mod Tests
mod Lists
mod Text
pub mod Map
pub mod Any
pub mod Unique
pub mod Sets
pub mod Search
pub mod Decimal
pub use Tests.*
pub use Lists.*
unfoldable pub use Text.{str, str_beq}
pub use Text.{Str, Eq, ◌==◌, nat_eq, str_instance, str_beq_iff, eq_self, eq_other}
pub use Prim.Native.Nat.{ℕ, zero, suc, ◌+◌, ◌-◌, ◌*◌, ◌/◌, ◌%◌, ◌^◌, ◌≤◌, ◌<◌}
pub use mathlib.Core.Path.{◌≡◌, refl, sym, ap, ap₂, ◌∙◌, subst}
pub use mathlib.Core.Logic.{◌≢◌, ◌↔◌, ◌⊎◌, inl, inr}
pub use mathlib.Core.Bool.{Bool, true, false, not, ◌&&◌, ◌||◌}
pub use mathlib.Core.Option.{Option, none, some}
pub use mathlib.Core.List.{List, [], ◌∷◌, ◌++◌, map}
pub use native.Mathlib.Omega.{arith}
