-- ===== src/Prelude.antt =====
-- The names that the other modules share: the libraries', passed on, and those of its children
-- (tests on numbers, arrays, bytes, the results of code that can stop at an assertion, and constants).
mod Tests
mod Lists
mod Outcome
mod Constants
pub mod Bytes
pub use Tests.*
pub use Lists.*
pub use Outcome.*
pub use Constants.*
pub use Prim.Native.Nat.{ℕ, zero, suc, ◌+◌, ◌-◌, ◌*◌, ◌/◌, ◌%◌, ◌^◌, ◌≤◌, ◌<◌, min}
pub use mathlib.Core.Path.{◌≡◌, refl, sym, ap, ◌∙◌, fun_ext}
pub use mathlib.Core.Logic.{◌≢◌, ◌↔◌, ◌⊎◌, inl, inr}
pub use mathlib.Core.Bool.{Bool, true, false, not, ◌&&◌, ◌||◌}
pub use mathlib.Core.Option.{Option, none, some}
pub use mathlib.Core.List.{List, [], ◌∷◌, ◌++◌, map}
pub use native.Mathlib.Omega.{arith}
unfoldable pub use native.Mathlib.Decide.{dec_lt, dec_le, ℕ_discrete}
