-- ===== src/Base.antt =====
-- The names that the other modules share: the libraries', passed on, and those of the children.
mod Tests
mod Lists
mod Int
mod Texts
mod Maps
mod Decimal
mod Trim
mod HostPort
mod Hex
mod Fields
mod Upper
mod Membership
pub use Tests.*
pub use Lists.*
pub use Int.*
pub use Membership.*
unfoldable pub use Texts.*
unfoldable pub use Maps.*
unfoldable pub use Decimal.*
pub use Trim.*
unfoldable pub use HostPort.*
unfoldable pub use Hex.*
unfoldable pub use Fields.*
unfoldable pub use Upper.*
pub use Prim.Native.Nat.{ℕ, zero, suc, ◌+◌, ◌-◌, ◌*◌, ◌/◌, ◌%◌, ◌^◌, ◌≤◌, ◌<◌}
pub use mathlib.Core.Path.{◌≡◌, refl, sym, ap, ◌∙◌}
pub use mathlib.Core.Logic.{◌≢◌, ◌↔◌, ◌⊎◌, inl, inr}
pub use mathlib.Core.Bool.{Bool, true, false, not, ◌&&◌, ◌||◌}
pub use mathlib.Core.Option.{Option, none, some}
pub use mathlib.Core.List.{List, [], ◌∷◌, ◌++◌, map}
pub use native.Mathlib.Omega.{arith}
