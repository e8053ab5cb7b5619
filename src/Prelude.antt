-- ===== src/Prelude.antt =====
-- The names that the other modules share: the libraries', passed on, and those of the children.
mod Tests
mod Lists
mod Fallible
mod CodeUnits
mod Splitting
pub use Tests.*
pub use Lists.*
pub use Fallible.*
pub use CodeUnits.{
  Text, codes, is_digit, starts_with-append, starts_with-drop, drop-length-append,
  skip_digits-decimal, text_eq→eq, text_eq_refl, StartsWithDigit, decimal-StartsWithDigit,
}
pub use Splitting.{prepend, is_white_space, keep_before_end}
unfoldable pub use Splitting.{split, trim_start, trim_end, trim}
unfoldable pub use CodeUnits.{
  concat, includes, text_eq, byte_length, starts_with, decimal, skip_digits,
}
pub use Prim.Native.Nat.{
  ℕ, zero, suc, ◌+◌, ◌-◌, ◌*◌, ◌/◌, ◌%◌, ◌≤◌, ◌<◌, min, max, compare, Ordering,
}
pub use Prim.Native.String.{String}
pub use mathlib.Core.Path.{◌≡◌, refl, sym, ap, ap₂, ◌∙◌, subst}
pub use mathlib.Core.Logic.{◌≢◌, ◌↔◌, ◌⊎◌, inl, inr}
pub use mathlib.Core.Bool.{Bool, true, false, not, ◌&&◌, ◌||◌}
pub use mathlib.Core.Option.{Option, none, some}
pub use mathlib.Core.List.{List, [], ◌∷◌, ◌++◌, map, append-nil, append_assoc}
pub use native.Mathlib.Omega.{arith}
