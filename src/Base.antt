-- ===== src/Base.antt =====
-- The names that the other modules share: those of the children, and the libraries' passed on.
mod Tests
mod Lists
mod Strings
mod Outcome
mod Int
pub mod OrdMap
pub mod Split
pub mod Sort
pub mod Utf8
pub mod Table
pub mod Lex
pub use Tests.*
pub use Lists.*
pub use Strings.{
  Text, txt, text_cmp_self, text_cmp-eq, text_cmp-gt, text_cmp-lt, text_cmp_trans, is_empty,
}
unfoldable pub use Strings.{
  Text-discrete, text_cmp, is_whitespace, trim_start, trim, starts_with, split_at,
}
pub use Outcome.{
  Result, ok, err, out_of_fuel, ◌>>=◌, ◌>>◌, ok_or, ensure, map_err, >>=-eq-ok, ok_or-eq-ok,
}
unfoldable pub use Outcome.{traverse}
pub use Int.{ℤ, pos, negsuc}
unfoldable pub use Int.{ℤ-discrete}
pub use Prim.Native.Nat.{
  ℕ, zero, suc, ◌+◌, ◌-◌, ◌*◌, ◌/◌, ◌%◌, ◌^◌, ◌≤◌, ◌<◌, Ordering, compare, min,
}
pub use mathlib.Core.Path.{◌≡◌, refl, sym, ap, ◌∙◌, subst, fun_ext}
pub use mathlib.Core.Logic.{◌≢◌, ◌↔◌, ◌⊎◌, inl, inr, ite, dite, if_pos, if_neg}
pub use mathlib.Core.Bool.{Bool, true, false, not, ◌&&◌, ◌||◌}
pub use mathlib.Core.Option.{Option, none, some}
pub use mathlib.Core.List.{List, [], ◌∷◌, ◌++◌, map, reverse, append_assoc, append-nil}
pub use native.Mathlib.Omega.{arith}
unfoldable pub use native.Mathlib.Decide.{dec_lt, dec_le, ℕ_discrete}
