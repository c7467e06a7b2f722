-- ===== src/Base.antt =====
-- The names that every module of this library uses: the libraries', passed on, and those of the
-- children below, which hold Boolean tests, lists and the outcomes of calls.
mod Tests
mod Lists
mod Calls
pub mod Order
pub use Tests.*
pub use Lists.*
pub use Calls.*
pub use Prim.Native.Nat.{
  ℕ, zero, suc, ◌+◌, ◌-◌, ◌*◌, ◌/◌, ◌%◌, ◌^◌, ◌≤◌, ◌<◌, max, min, bit_and, bit_or, bit_xor,
}
pub use mathlib.Core.Path.{◌≡◌, refl, sym, ap, subst, ◌∙◌}
pub use mathlib.Core.Logic.{◌≢◌, ◌↔◌, ◌⊎◌, inl, inr}
pub use mathlib.Core.Bool.{Bool, true, false, not, ◌&&◌, ◌||◌}
pub use mathlib.Core.Option.{Option, none, some}
pub use mathlib.Core.List.{List, [], ◌∷◌, ◌++◌, map, reverse, append_assoc, append-nil}
pub use Prim.Native.String.{String}
pub use native.Mathlib.Omega.{arith}
