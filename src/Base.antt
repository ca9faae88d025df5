-- ===== src/Base.antt =====
-- Names shared by the whole development: the libraries', passed on, and those of the children.
-- `Bools` has the tests on numbers and texts, `Bytes` checks by evaluation, `Lists` the lists measured by native numbers, and
-- `Maps` JavaScript's `Map` with its insertion order.
mod Bools
mod Bytes
mod Keyed
mod Lists
mod Maps
mod Sorting
mod Xor
unfoldable pub use Bools.*
unfoldable pub use Bytes.*
unfoldable pub use Keyed.*
unfoldable pub use Lists.*
unfoldable pub use Maps.*
unfoldable pub use Sorting.*
unfoldable pub use Xor.*
pub use Prim.Native.Nat.{ℕ, zero, suc, ◌+◌, ◌-◌, ◌*◌, ◌/◌, ◌%◌, ◌^◌, ◌≤◌, ◌<◌, min, max}
pub use Prim.Native.String.{String}
pub use mathlib.Core.Path.{◌≡◌, refl, sym, ap, ◌∙◌, subst, ◌≡⟨◌⟩◌, ◌∎}
pub use mathlib.Core.Logic.{◌≢◌, ◌↔◌, ◌⊎◌, inl, inr}
pub use mathlib.Core.Bool.{Bool, true, false, not, ◌&&◌, ◌||◌}
pub use mathlib.Core.Option.{Option, none, some}
pub use mathlib.Core.List.{List, [], ◌∷◌, ◌++◌, map}
pub use native.Mathlib.Omega.{arith}
