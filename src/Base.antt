-- ===== src/Base.antt =====
-- Names that every module shares: the libraries', Boolean tests, lists over the native numbers,
-- decimal text and the little-endian words of the machine.
mod Tests
mod Lists
mod Ascii
mod Words
mod Memory
mod Updates
mod WordUpdates
pub use Tests.*
pub use Lists.*
pub use Updates.*
pub use WordUpdates.*
unfoldable pub use Ascii.*
unfoldable pub use Words.*
unfoldable pub use Memory.*
pub use Prim.Native.Nat.{ℕ, zero, suc, ◌+◌, ◌-◌, ◌*◌, ◌/◌, ◌%◌, ◌^◌, ◌≤◌, ◌<◌}
pub use Prim.Native.String.{String}
pub use mathlib.Core.Path.{◌≡◌, refl, sym, ap, ◌∙◌, subst}
pub use mathlib.Core.Logic.{◌≢◌, ◌↔◌, ◌⊎◌, inl, inr}
pub use mathlib.Core.Bool.{Bool, true, false, not, ◌&&◌, ◌||◌}
pub use mathlib.Core.Option.{Option, none, some}
pub use mathlib.Core.List.{List, [], ◌∷◌, ◌++◌, map, append_assoc, append-nil}
pub use native.Mathlib.Omega.{arith}
