-- ===== src/Common.antt =====
-- Names that all modules share: the libraries', passed on, Boolean tests, lists over the native
-- numbers, bit operations, little-endian bytes, signed integers, and the exception monad.
mod Tests
mod Lists
pub mod Bits
pub mod Fields
pub mod Numbers
pub mod Masked
pub mod Windows
pub mod Merging
pub mod Bytes
pub mod Int
pub mod Dict
pub mod Monad
unfoldable pub use Tests.*
pub use Lists.*
pub use Prim.Native.Nat.{ℕ, zero, suc, ◌+◌, ◌-◌, ◌*◌, ◌/◌, ◌%◌, ◌^◌, ◌≤◌, ◌<◌}
pub use Prim.Native.Nat.{bit_and, bit_or, bit_xor, min}
pub use mathlib.Core.Path.{◌≡◌, refl, sym, ap, ◌∙◌}
pub use mathlib.Core.Logic.{◌≢◌, ◌↔◌, ◌⊎◌, inl, inr}
pub use mathlib.Core.Bool.{Bool, true, false, not, ◌&&◌, ◌||◌}
pub use mathlib.Core.Option.{Option, none, some}
pub use mathlib.Core.List.{List, [], ◌∷◌, ◌++◌, map}
pub use native.Mathlib.Omega.{arith}
