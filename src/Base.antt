-- ===== src/Base.antt =====
-- The names that the other modules share: the libraries', passed on, and those of the children.
mod Tests
mod Lists
mod Compare
mod Text
mod Sort
mod Orders
mod Int
mod Search
pub use Tests.*
pub use Lists.*
pub use Compare.*
unfoldable pub use Compare.{str_eq, str_lt, has_prefix, drop_prefix}
unfoldable pub use Text.{
  has_suffix, trim_prefix, trim_suffix, contains, index, cut, split, join, is_space, trim_left,
  trim_right, trim_space, to_lower, equal_fold, lower_byte, has_byte, trim_class_left, trim_byte,
}
pub use Text.*
unfoldable pub use Sort.{insert_by, sort_by}
pub use Sort.*
pub use Orders.*
pub use Int.*
pub use Search.*
pub use Prim.Native.Nat.{ℕ, zero, suc, min, ◌+◌, ◌-◌, ◌*◌, ◌/◌, ◌%◌, ◌≤◌, ◌<◌}
pub use Prim.Native.String.{String}
pub use mathlib.Core.Path.{◌≡◌, refl, sym, ap, ◌∙◌, subst}
pub use mathlib.Core.Logic.{◌≢◌, ◌↔◌, ◌⊎◌, inl, inr}
pub use mathlib.Core.Bool.{Bool, true, false, not, ◌&&◌, ◌||◌}
pub use mathlib.Core.Option.{Option, none, some}
pub use mathlib.Core.List.{List, [], ◌∷◌, ◌++◌, map, append-nil, append_assoc}
pub use native.Mathlib.Omega.{arith}
