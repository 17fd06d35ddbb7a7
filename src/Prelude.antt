-- ===== src/Prelude.antt =====
-- The names that the other modules share: the libraries', passed on, and those of the children.
pub mod Tests
pub mod Lists
pub mod Strings
pub mod Errors
pub mod Assoc
pub mod Returns
pub use Tests.*
pub use Lists.*
pub use Prim.Native.Nat.{ℕ, zero, suc, ◌+◌, ◌-◌, ◌*◌, ◌/◌, ◌%◌, ◌^◌, ◌≤◌, ◌<◌}
pub use Prim.Native.String.{String}
pub use mathlib.Core.Path.{◌≡◌, refl, sym, ap, ◌∙◌, subst}
pub use mathlib.Core.Logic.{◌≢◌, ◌↔◌, ◌⊎◌, inl, inr}
pub use mathlib.Core.Bool.{Bool, true, false, not, ◌&&◌, ◌||◌}
pub use mathlib.Core.Option.{Option, none, some}
pub use mathlib.Core.List.{List, [], ◌∷◌, ◌++◌, map}
pub use native.Mathlib.Omega.{arith}
pub use Strings.{Str, str, str_eq_iff, str_eq_refl, equal_fold_refl}
unfoldable pub use Strings.{
  str_eq, str_lt, is_empty, decimal, padded, hex_string, hex_prefix, hex_valid, remove_char,
  remove_0x, split, trim_spaces, lower, equal_fold,
}
pub use Errors.{
  Error, not_found, key_not_found, record_not_found, key_exist, app, text, Outcome, ok, fail, panic,
  ◌>>=◌, ◌>>◌, reject_if, deref, attempt, ok_inj,
}
unfoldable pub use Errors.{
  unauthorized, forbidden, not_found_error, bad_request, internal, error_string, is_not_found,
}
pub use Assoc.{Eq, str_has_eq, StateKey, state_key_has_eq, lookup-insert}
unfoldable pub use Assoc.{key_eq, lookup, insert}
unfoldable pub use Returns.{Ensures}
pub use Returns.{
  Ensures-result, Ensures-ok, Ensures-fail, Ensures-panic, Ensures->>=, Ensures-reject_if,
  Ensures-deref, Ensures-if, Ensures-attempt, Ensures-last, >>=-ok, attempt-ok,
}
