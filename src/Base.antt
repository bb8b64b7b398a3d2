-- ===== src/Base.antt =====
-- Names that every part of the development shares: the libraries', passed on, and those of the
-- child modules. It models no file of the repository by itself.
mod Tests
mod Lists
mod Equality
mod Texts
mod Dictionary
pub mod Json
pub use Tests.*
pub use Lists.*
unfoldable pub use Equality.*
unfoldable pub use Texts.*
unfoldable pub use Dictionary.*
pub use Prim.Native.Nat.{ℕ, zero, suc, ◌+◌, ◌-◌, ◌*◌, ◌/◌, ◌%◌, ◌^◌, ◌≤◌, ◌<◌}
pub use mathlib.Core.Path.{◌≡◌, refl, sym, ap, ◌∙◌}
pub use mathlib.Core.Logic.{◌≢◌, ◌↔◌, ◌⊎◌, inl, inr}
pub use mathlib.Core.Bool.{Bool, true, false, not, ◌&&◌, ◌||◌}
pub use mathlib.Core.Option.{Option, none, some}
pub use mathlib.Core.List.{List, [], ◌∷◌, ◌++◌, map, append_assoc, append-nil}
pub use native.Mathlib.Omega.{arith}
