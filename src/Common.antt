-- ===== src/Common.antt =====
-- The names that every module shares: the libraries' names, passed on, Boolean tests and list
-- functions over the native numbers, the errors of the repository and its results.
mod Tests
mod Lists
mod Errors
pub mod Bytes
pub mod Int
pub mod State
pub mod Uint
pub mod Panic
pub mod Maps
pub mod Text
pub mod Utf8
pub use Tests.*
pub use Lists.*
pub use Errors.*
pub use Prim.Native.Nat.{ℕ, zero, suc, ◌+◌, ◌-◌, ◌*◌, ◌/◌, ◌%◌, ◌^◌, ◌≤◌, ◌<◌, min, max}
pub use Prim.Native.String.{String}
pub use mathlib.Core.Path.{◌≡◌, refl, sym, ap, ◌∙◌}
pub use mathlib.Core.Logic.{◌≢◌, ◌↔◌, ◌⊎◌, inl, inr}
pub use mathlib.Core.Bool.{Bool, true, false, not, ◌&&◌, ◌||◌}
pub use mathlib.Core.Option.{Option, none, some}
pub use mathlib.Core.List.{List, [], ◌∷◌, ◌++◌, map}
pub use native.Mathlib.Omega.{arith}
