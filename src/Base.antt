-- ===== src/Base.antt =====
-- Names that every module shares: the libraries' data and laws, passed on, with the tests, list
-- helpers, results and 64-bit words of the children.
mod Tests
mod Lists
mod Results
mod Loops
pub mod Order
pub mod Words
pub mod Complex
pub mod Bits
pub mod Int
pub mod Modular
pub use Tests.*
pub use Lists.*
pub use Results.*
pub use Loops.*
pub use Prim.Native.Nat.{ℕ, zero, suc, ◌+◌, ◌-◌, ◌*◌, ◌/◌, ◌%◌, ◌^◌, ◌≤◌, ◌<◌, min, max}
pub use mathlib.Core.Path.{◌≡◌, refl, sym, ap, ap₂, subst, ◌∙◌, ◌≡⟨◌⟩◌, ◌∎}
pub use mathlib.Core.Logic.{◌≢◌, ◌↔◌, ◌⊎◌, inl, inr}
pub use mathlib.Core.Bool.{Bool, true, false, not, ◌&&◌, ◌||◌}
pub use mathlib.Core.Option.{Option, none, some}
pub use mathlib.Core.List.{List, [], ◌∷◌, ◌++◌, map}
pub use native.Mathlib.Omega.{arith}
