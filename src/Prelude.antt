-- ===== src/Prelude.antt =====
-- What the other modules share: the libraries' names, passed on, and those of five children: Boolean
-- tests (`Tests`), lists over the native numbers (`Lists`), texts (`Texts`), maps with text
-- keys (`TextMaps`) and the operations of `str` (`Strs`). Fallible steps (`Results`), what they
-- preserve (`Keeps`), the integers
-- (`Int`) and sorting (`Sorting`) are used by their own names.
mod Tests
mod Lists
mod Texts
mod TextMaps
mod Strs
pub mod Results
pub mod Keeps
pub mod Int
pub mod Sorting
pub use Tests.*
pub use Lists.*
pub use Texts.*
unfoldable pub use TextMaps.{lookup, insert, remove}
pub use TextMaps.{lookup-insert, lookup-remove}
unfoldable pub use Strs.{
  lines, trim_start, trim_end, trim, split_whitespace, split_env, is_prefix, contains_str, join,
  text_leb,
}
pub use Strs.{is_whitespace, starts_with_code, is_empty, cons_first, to_uppercase, ends_with_slash}
pub use Prim.Native.Nat.{ℕ, zero, suc, ◌+◌, ◌-◌, ◌*◌, ◌/◌, ◌%◌, ◌^◌, ◌≤◌, ◌<◌, max, min}
pub use mathlib.Core.Path.{◌≡◌, refl, sym, ap, ◌∙◌, subst}
pub use mathlib.Core.Logic.{◌≢◌, ◌↔◌, ◌⊎◌, inl, inr}
pub use mathlib.Core.Bool.{Bool, true, false, not, ◌&&◌, ◌||◌}
pub use mathlib.Core.Option.{Option, none, some}
pub use mathlib.Core.List.{List, [], ◌∷◌, ◌++◌, map, reverse}
pub use native.Mathlib.Omega.{arith}
