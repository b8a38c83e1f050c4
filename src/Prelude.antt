-- ===== src/Prelude.antt =====
-- Names that the modules share: the libraries', passed on, and those of the children. No code of
-- the repository is modelled here but Rust's standard types (`Option`, `Result`, `BTreeMap`, `str`).
mod Tests
mod Lists
mod Equality
mod Results
pub mod Int
pub mod Numbers
pub mod Text
pub mod Sorting
pub mod Search
pub mod Pairwise
pub mod Split
pub mod Sets
pub mod BTreeMap
pub use Tests.*
pub use Lists.*
pub use Equality.*
pub use Results.*
pub use Int.{ℤ, pos, negsuc}
pub use Prim.Native.Nat.{ℕ, zero, suc, ◌+◌, ◌-◌, ◌*◌, ◌/◌, ◌%◌, ◌^◌, ◌≤◌, ◌<◌}
pub use Prim.Native.String.{String}
pub use mathlib.Core.Path.{◌≡◌, refl, sym, ap, ◌∙◌}
pub use mathlib.Core.Logic.{◌≢◌, ◌↔◌, ◌⊎◌, inl, inr}
pub use mathlib.Core.Bool.{Bool, true, false, not, ◌&&◌, ◌||◌}
pub use mathlib.Core.Option.{Option, none, some}
pub use mathlib.Core.List.{List, [], ◌∷◌, ◌++◌, map}
pub use native.Mathlib.Omega.{arith}
pub use text.Mathlib.Text.{◌==◌ as str_eq}
pub use text.Mathlib.TextEquality.{eq_iff}
pub use text.Mathlib.TextPositions.{eq_refl}
