-- ===== src/Prelude.antt =====
-- The names that all the modules share: the libraries', passed on, and those of the children:
-- Boolean tests, lists over the native numbers, byte strings, bit fields, dictionaries.
mod Tests
mod Lists
mod Text
mod Decimal
mod Bits
mod Numerals
mod Ints
mod Keys
pub mod Dict
pub mod Counts
pub use Tests.*
pub use Lists.*
unfoldable pub use Text.*
unfoldable pub use Decimal.*
unfoldable pub use Numerals.*
pub use Ints.*
pub use Bits.*
pub use Keys.*
pub use Prim.Native.Nat.{ℕ, zero, suc, ◌+◌, ◌-◌, ◌*◌, ◌/◌, ◌%◌, ◌^◌, ◌≤◌, ◌<◌, min, max}
pub use Prim.Native.Nat.{bit_and, bit_or}
pub use mathlib.Core.Path.{◌≡◌, refl, sym, ap, ap₂, ◌∙◌, ◌≡⟨◌⟩◌, ◌∎, subst}
pub use mathlib.Core.Logic.{◌≢◌, ◌↔◌, ◌⊎◌, inl, inr}
pub use mathlib.Core.Bool.{Bool, true, false, ◌&&◌, ◌||◌, not}
pub use mathlib.Core.Option.{Option, none, some}
pub use mathlib.Core.List.{List, [], ◌∷◌, ◌++◌, map, append-nil, append_assoc}
pub use native.Mathlib.Omega.{arith}
pub use Prim.Native.String.{String}
