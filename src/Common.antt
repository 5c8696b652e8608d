-- ===== src/Common.antt =====
-- The names that the other modules share: the libraries', passed on, Go's error results, and the
-- slices and strings of the children.
mod Tests
mod Lists
mod Results
mod Text
mod Int
mod Trim
mod Paths
mod Dirs
pub use Tests.*
pub use Lists.*
pub use Results.*
unfoldable pub use Int.*
unfoldable pub use Trim.*
unfoldable pub use Paths.*
pub use Paths.Bytewise.*
pub use Dirs.Bytewise.*
unfoldable pub use Dirs.*
unfoldable pub use Text.*
pub use Prim.Native.Nat.{ℕ, zero, suc, ◌+◌, ◌-◌, ◌*◌, ◌/◌, ◌%◌, ◌^◌, ◌≤◌, ◌<◌, min, max}
pub use mathlib.Core.Path.{◌≡◌, refl, sym, ap, ◌∙◌, subst}
pub use mathlib.Core.Logic.{◌≢◌, ◌↔◌, ◌⊎◌, inl, inr}
pub use mathlib.Core.Bool.{Bool, true, false, ◌&&◌, ◌||◌, not}
pub use mathlib.Core.Option.{Option, none, some}
pub use mathlib.Core.List.{List, [], ◌∷◌, ◌++◌, map, append-nil, append_assoc}
pub use native.Mathlib.Omega.{arith}
