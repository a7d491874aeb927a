-- ===== src/Base.antt =====
-- The names that the other modules share: the libraries', passed on, and those of the children.
mod Tests
mod Lists
mod Int
mod Order
mod Text
mod Maps
mod Paths
mod Results
mod Search
mod Permutations
pub use Tests.*
pub use Lists.*
unfoldable pub use Lists.{any, all}
pub use Int.*
pub use Order.*
unfoldable pub use Order.{text_leb, insert_by, sort_by}
unfoldable pub use Int.{◌+ℤ◌, suc_ℤ, span, to_int64}
pub use Text.*
unfoldable pub use Text.{
  has_prefix, contains, all_chars, is_space, trim_left, trim_right, trim_space, split_from, split,
  join, digit, show_from, show_nat, show_int,
}
pub use Results.*
pub use Search.*
pub use Permutations.*
pub use Paths.*
unfoldable pub use Paths.{clean, path_join, path_dir, fields}
pub use Maps.*
unfoldable pub use Maps.{lookup, insert, get_text}
pub use Prim.Native.Nat.{ℕ, zero, suc, ◌+◌, ◌-◌, ◌*◌, ◌/◌, ◌%◌, ◌^◌, ◌≤◌, ◌<◌}
pub use Prim.Native.String.{String, len}
pub use Prim.Native.Char.{code}
pub use mathlib.Core.Path.{◌≡◌, refl, sym, ap, ◌∙◌}
pub use mathlib.Core.Logic.{◌≢◌, ◌↔◌, ◌⊎◌, inl, inr}
pub use mathlib.Core.Bool.{Bool, true, false, not, ◌&&◌, ◌||◌}
pub use mathlib.Core.Option.{Option, none, some}
pub use mathlib.Core.List.{List, [], ◌∷◌, ◌++◌, map}
pub use native.Mathlib.Omega.{arith}
pub use text.Mathlib.Text.{◌==◌}
pub use text.Mathlib.TextEquality.{eq_iff}
pub use text.Mathlib.TextPositions.{eq_refl}
