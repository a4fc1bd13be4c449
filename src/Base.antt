-- ===== src/Base.antt =====
-- Names that every module shares: the libraries' names passed on, Boolean tests and equality,
-- results, lists, texts and ordered maps. This file and its children model the parts of the
-- Rust language and standard library that the crates use, none of the crates' own code.
mod Tests
mod Lists
mod Results
pub mod Distinct
pub mod Bytes
pub mod Utf8
pub mod BTreeMap
pub use Tests.*
pub use Lists.*
pub use Results.*
unfoldable pub use Results.{try_for_each, try_fold}
unfoldable pub use Lists.{contains}
pub use Prim.Native.Nat.{
  ℕ, zero, suc, ◌+◌, ◌-◌, ◌*◌, ◌/◌, ◌%◌, ◌^◌, ◌≤◌, ◌<◌, compare, Ordering, min, max,
}
pub use mathlib.Core.Path.{◌≡◌, refl, sym, ap, ◌∙◌, subst}
pub use mathlib.Core.Logic.{◌≢◌, ◌↔◌, ◌⊎◌, inl, inr}
pub use mathlib.Core.Bool.{Bool, true, false, ◌&&◌, ◌||◌, not}
pub use mathlib.Core.Option.{Option, none, some}
pub use mathlib.Core.List.{List, [], ◌∷◌, ◌++◌, map, Mem, Nodup, Perm}
pub use native.Mathlib.Omega.{arith}
unfoldable pub use native.Mathlib.Decide.{ℕ_discrete}
