-- ===== src/Base.antt =====
-- The names that the other modules share: the libraries', passed on, and those of the children.
pub mod Tests
pub mod Dictionary
pub mod Lists
pub mod Choice
pub mod Sets
pub mod UniqueKeys
pub mod Collect
pub mod Int
pub mod Sorted
unfoldable pub use Tests.*
unfoldable pub use Dictionary.*
unfoldable pub use Lists.*
unfoldable pub use Choice.*
unfoldable pub use Sets.*
unfoldable pub use UniqueKeys.*
unfoldable pub use Collect.*
unfoldable pub use Int.*
unfoldable pub use Sorted.*
pub use Prim.Native.Nat.{ℕ, zero, suc, ◌+◌, ◌-◌, ◌*◌, ◌/◌, ◌%◌, ◌^◌, ◌≤◌, ◌<◌, min, max}
pub use Prim.Native.String.{String}
pub use mathlib.Core.Path.{◌≡◌, refl, sym, ap, ap₂, ◌∙◌, subst}
pub use mathlib.Core.Logic.{◌≢◌, ◌↔◌, ◌⊎◌, inl, inr}
pub use mathlib.Core.Bool.{Bool, true, false, ◌&&◌, ◌||◌, not, false≢true}
pub use mathlib.Core.Option.{Option, none, some, some-injective}
pub use mathlib.Core.List.{List, [], Permᴰ, ◌∷◌, ◌++◌, map}
pub use native.Mathlib.Omega.{arith}
