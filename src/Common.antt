-- ===== src/Common.antt =====
-- The names that the modules share: the libraries', passed on, and those of the children.
mod Tests
mod Lists
pub mod Order
mod Text
pub mod Members
pub mod Split
pub mod Decimal
pub mod Sort
pub mod Assoc
pub use Tests.*
pub use Lists.*
unfoldable pub use Text.{
  str_eq, mem, take_while, drop_while, trim_start, trim_end_matches, trim, starts_with, contains,
  split_once, split_char, rsplit_char, digits_value, parse_unsigned,
}
pub use Text.{
  Str, codes, str_eq_refl, eq_of_str_eq, str_eq_iff, str_eq_sym, parse_unsigned-lt, is_space,
  is_digit, is_alpha, is_alnum, u32_limit, u64_limit,
}
pub use Prim.Native.Nat.{ℕ, zero, suc, ◌+◌, ◌-◌, ◌*◌, ◌/◌, ◌%◌, ◌^◌, ◌≤◌, ◌<◌, compare, Ordering}
pub use Prim.Native.Nat.Ordering.{lt, eq, gt}
pub use mathlib.Core.Path.{◌≡◌, refl, sym, ap, subst, ◌∙◌}
pub use mathlib.Core.Logic.{◌≢◌, ◌↔◌, ◌⊎◌, inl, inr}
pub use mathlib.Core.Bool.{Bool, true, false, not, ◌&&◌, ◌||◌}
pub use mathlib.Core.Option.{Option, none, some}
pub use mathlib.Core.List.{List, [], ◌∷◌, ◌++◌, map, reverse}
pub use native.Mathlib.Omega.{arith}
