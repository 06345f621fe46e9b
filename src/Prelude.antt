-- ===== src/Prelude.antt =====
-- Names that the other modules share: the libraries', passed on, and those of the child modules.
mod Tests
mod Lists
mod Texts
mod Sorting
mod Maps
mod Ranking
mod Rearranging
mod Entries
mod Options
mod Splitting
pub use Tests.*
pub use Lists.*
unfoldable pub use Texts.*
unfoldable pub use Sorting.*
unfoldable pub use Maps.*
pub use Ranking.*
pub use Rearranging.*
pub use Entries.*
unfoldable pub use Options.*
unfoldable pub use Splitting.*
pub use Prim.Native.Nat.{ℕ, zero, suc, ◌+◌, ◌-◌, ◌*◌, ◌/◌, ◌%◌, ◌≤◌, ◌<◌, min, max}
pub use Prim.Native.String.{String}
pub use mathlib.Core.Path.{◌≡◌, refl, sym, ap, ◌∙◌, subst}
pub use mathlib.Core.Logic.{◌≢◌, ◌↔◌, ◌⊎◌, inl, inr}
pub use mathlib.Core.Bool.{Bool, true, false, not, ◌&&◌, ◌||◌}
pub use mathlib.Core.Option.{Option, none, some}
pub use mathlib.Core.List.{List, [], ◌∷◌, ◌++◌, map}
pub use native.Mathlib.Omega.{arith}
