-- ===== src/Common.antt =====
-- What the modules share: the libraries' names, passed on, and those of the children.
mod Tests
mod Lists
mod Outcome
pub mod Arrays
pub mod Least
pub mod Cuts
pub use Tests.*
unfoldable pub use Tests.{round_up}
pub use Lists.*
pub use Outcome.*
pub use Prim.Native.Nat.{ℕ, zero, suc, ◌+◌, ◌-◌, ◌*◌, ◌/◌, ◌%◌, ◌^◌, ◌≤◌, ◌<◌, compare, Ordering}
pub use mathlib.Core.Path.{◌≡◌, refl, sym, ap, ◌∙◌, subst}
pub use mathlib.Core.Logic.{◌≢◌, ◌↔◌, ◌⊎◌, inl, inr}
pub use mathlib.Core.Bool.{Bool, true, false, not, ◌&&◌, ◌||◌}
pub use mathlib.Core.Option.{Option, none, some}
pub use mathlib.Core.List.{List, [], ◌∷◌, ◌++◌, map, Mem, Perm, append_assoc, append-nil}
pub use native.Mathlib.Omega.{arith}
