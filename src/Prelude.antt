-- ===== src/Prelude.antt =====
-- The names that the other modules share: the libraries', passed on, and those of the children.
mod Tests
mod Lists
mod Results
mod Texts
mod Sorting
mod Tables
mod Splitting
mod Rows
mod Places
pub mod Actions
pub mod Json
pub use Tests.*
pub use Lists.*
pub use Results.*
pub use Sorting.*
pub use Tables.*
pub use Rows.*
unfoldable pub use Splitting.{split, trim}
pub use Splitting.{
  add_to_first, Lacks, split-append, split-last, cut, cut-append, is_space, trim_start, trim_end,
  IsSolid, trim_solid, trim-blank,
}
pub use Places.*
unfoldable pub use Texts.{includes, codes, lower, matches_ci, has_prefix, starts_with}
pub use Prim.Native.Nat.{ℕ, zero, suc, ◌+◌, ◌-◌, ◌*◌, ◌/◌, ◌%◌, ◌≤◌, ◌<◌, min, max}
pub use Prim.Native.String.{String}
pub use mathlib.Core.Path.{◌≡◌, refl, sym, ap, ◌∙◌, subst, subst₂}
pub use mathlib.Core.Logic.{◌≢◌, ◌↔◌, ◌⊎◌, inl, inr}
pub use mathlib.Core.Bool.{Bool, true, false, not, ◌&&◌, ◌||◌}
pub use mathlib.Core.Option.{Option, none, some}
pub use mathlib.Core.List.{List, [], ◌∷◌, ◌++◌, map}
pub use native.Mathlib.Omega.{arith}
pub use text.Mathlib.Text.{◌==◌ as str_eq}
pub use text.Mathlib.TextEquality.{eq_iff as str_eq_iff}
