-- ===== src/Base.antt =====
-- Names that every module of the library shares: those of the libraries, passed on, and the
-- helpers of the children (Boolean tests, lists over the native numbers, bits, machine words).
mod Tests
mod Lists
mod Bits
mod Update
mod Ints
mod Texts
pub use Tests.*
pub use Lists.*
pub use Bits.*
pub use Ints.*
pub use Texts.*
pub use Update.*
pub use Prim.Native.Nat.{
  ℕ, zero, suc, ◌+◌, ◌-◌, ◌*◌, ◌/◌, ◌%◌, ◌^◌, ◌≤◌, ◌<◌, min, bit_and, bit_or, bit_xor,
}
pub use mathlib.Core.Path.{◌≡◌, refl, sym, ap, subst, ◌∙◌}
pub use mathlib.Core.Logic.{◌≢◌, ◌↔◌, ◌⊎◌, inl, inr}
pub use mathlib.Core.Bool.{Bool, true, false, ◌&&◌, ◌||◌, not}
pub use mathlib.Core.Option.{Option, none, some}
pub use mathlib.Core.List.{List, [], ◌∷◌, ◌++◌}
pub use native.Mathlib.Omega.{arith}
