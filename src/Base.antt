-- ===== src/Base.antt =====
-- The names that the other modules share: those of the libraries, passed on, and the children's
-- Boolean tests, sequences, bit laws, signed integers and results of calls.
mod Order
mod Seq
mod Bits
mod Int
mod Outcome
mod Find
mod Search
pub use Order.*
pub use Seq.*
pub use Bits.*
unfoldable pub use Int.*
pub use Outcome.*
pub use Search.*
unfoldable pub use Find.*
pub use Prim.Native.Nat.{
  ℕ, zero, suc, ◌+◌, ◌-◌, ◌*◌, ◌/◌, ◌%◌, ◌^◌, ◌≤◌, ◌<◌, min, max, bit_and, bit_or,
}
pub use mathlib.Core.Path.{◌≡◌, refl, sym, ap, ap₂, ◌∙◌}
pub use mathlib.Core.Logic.{◌≢◌, ◌↔◌, ◌⊎◌, inl, inr}
pub use mathlib.Core.Bool.{Bool, true, false, not, ◌&&◌, ◌||◌}
pub use mathlib.Core.Option.{Option, none, some}
pub use mathlib.Core.List.{List, [], ◌∷◌, ◌++◌, map, append-nil, append_assoc}
pub use native.Mathlib.Omega.{arith}
