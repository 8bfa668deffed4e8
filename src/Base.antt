-- ===== src/Base.antt =====
-- The names that the other modules share: the libraries', passed on, and those of three children.
mod Tests
mod Lists
mod Texts
mod Split
pub use Tests.*
unfoldable pub use Tests.{String_discrete}
unfoldable pub use Lists.{any, find, keep}
pub use Lists.{length, length-append, any-append}
pub use Texts.{codes, is_control, is_space}
unfoldable pub use Texts.{fields, base_name, decimal, join, join_with, sort_texts, trim_space}
pub use Prim.Native.String.{◌++◌ as append, len}
pub use Prim.Native.Nat.{ℕ, zero, suc, ◌+◌, ◌-◌, ◌*◌, ◌/◌, ◌%◌, ◌^◌, ◌≤◌, ◌<◌, min, max}
pub use Prim.Native.String.{String}
pub use mathlib.Core.Path.{◌≡◌, refl, sym, ap, ◌∙◌}
pub use mathlib.Core.Logic.{◌≢◌, ◌↔◌, ◌⊎◌, inl, inr}
pub use mathlib.Core.Bool.{Bool, true, false, not, ◌&&◌, ◌||◌}
pub use mathlib.Core.Option.{Option, none, some}
pub use mathlib.Core.List.{List, [], ◌∷◌, ◌++◌, map}
pub use native.Mathlib.Omega.{arith}
pub use text.Mathlib.Text.{◌==◌ as str_eq}
pub use text.Mathlib.TextEquality.{eq_iff}
pub use text.Mathlib.TextPositions.{eq_refl}
unfoldable pub use Split.{holds, split_on}
pub use Split.{
  one, Lacks, split_on-join_with, join_with-split_on, join_with-join_with, join_with-cons,
  split_on-Lacks, pieces, split_on-cons,
}
pub use Texts.Trim.{trim_space-shorter}
