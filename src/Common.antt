-- ===== src/Common.antt =====
-- The names that the other modules share: the libraries', passed on, and those of the children:
-- Boolean tests, list helpers, and the JavaScript text operations that the console uses.
mod Tests
mod Lists
mod JsText
pub mod TextLaws
pub mod Split
pub use Tests.*
pub use Lists.*
pub use JsText.{
  Text, codes, text_eq_iff, text_eq_refl, is_empty, drop_while, drop_last_while, or_else, truthy,
  join,
}
unfoldable pub use Lists.{insert_by, sort_by}
unfoldable pub use JsText.{
  text_eq, is_space, trim_start, trim_end, trim, lower_char, lower, starts_with, ends_with,
  includes, contains, index_of, is_alnum, is_digit, all_digits, decimal, split,
}
pub use Prim.Native.Nat.{ℕ, zero, suc, ◌+◌, ◌-◌, ◌*◌, ◌/◌, ◌%◌, ◌^◌, ◌≤◌, ◌<◌}
pub use Prim.Native.String.{String}
pub use mathlib.Core.Path.{◌≡◌, refl, fun_ext, sym, ap, ◌∙◌, ◌≡⟨◌⟩◌, ◌∎, subst}
pub use mathlib.Core.Logic.{◌≢◌, ◌↔◌, ◌⊎◌, inl, inr}
pub use mathlib.Core.Bool.{Bool, true, false, not, ◌&&◌, ◌||◌}
pub use mathlib.Core.Option.{Option, none, some}
pub use mathlib.Core.List.{List, [], ◌∷◌, ◌++◌, map, reverse, append_assoc, append-nil}
pub use native.Mathlib.Omega.{arith}
