-- ===== src/Base.antt =====
-- The names that the other modules share.
mod Tests
mod Lists
mod Word
mod Errors
mod Step
mod Bits
mod Powers
mod Dictionary
mod Fours
unfoldable pub use Tests.*
pub use Lists.*
unfoldable pub use Word.*
pub use Errors.*
pub use Step.*
pub use Bits.*
pub use Powers.*
unfoldable pub use Dictionary.*
pub use Fours.*
pub use Prim.Native.Nat.{ℕ, zero, suc, ◌+◌, ◌-◌, ◌*◌, ◌/◌, ◌%◌, ◌^◌, ◌≤◌, ◌<◌, min, max}
pub use Prim.Native.Nat.{bit_and, bit_or, bit_xor}
pub use mathlib.Core.Path.{◌≡◌, refl, sym, ap, ap₂, subst, ◌∙◌}
pub use mathlib.Core.Logic.{◌≢◌, ◌↔◌, ◌⊎◌, inl, inr}
pub use mathlib.Core.Bool.{Bool, true, false, not, ◌&&◌, ◌||◌}
pub use mathlib.Core.Option.{Option, none, some}
pub use mathlib.Core.List.{List, [], ◌∷◌, ◌++◌, map, foldl, map-append}
pub use native.Mathlib.Omega.{arith}
