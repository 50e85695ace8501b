-- ===== src/Prelude.antt =====
-- The names that all modules share: the libraries', passed on, and the children's.
pub mod Tests
pub mod Equality
pub mod Lists
pub mod Maps
pub mod Decimal
pub mod Effects
pub mod Int
pub mod Orders
pub mod Float
pub mod Texts
pub mod Sorting
pub mod TextOrder
pub mod Waiting
unfoldable pub use TextOrder.*
unfoldable pub use Sorting.*
unfoldable pub use Texts.*
pub use Orders.*
pub use Float.*
unfoldable pub use Int.*
pub use Waiting.*
pub use Effects.*
pub use Tests.*
pub use Equality.*
pub use Lists.*
unfoldable pub use Maps.*
unfoldable pub use Decimal.*
pub use Prim.Native.Nat.{ℕ, zero, suc, ◌+◌, ◌-◌, ◌*◌, ◌/◌, ◌%◌, ◌^◌, ◌≤◌, ◌<◌}
pub use Prim.Native.String.{String}
pub use mathlib.Core.Path.{◌≡◌, refl, sym, ap, ◌∙◌, subst}
pub use mathlib.Core.Logic.{◌≢◌, ◌↔◌, ◌⊎◌, inl, inr}
pub use mathlib.Core.Bool.{Bool, true, false, not, ◌&&◌, ◌||◌}
pub use mathlib.Core.Option.{Option, none, some}
pub use mathlib.Core.List.{List, [], ◌∷◌, ◌++◌, map}
pub use native.Mathlib.Omega.{arith}
