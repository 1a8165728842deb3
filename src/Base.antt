-- ===== src/Base.antt =====
-- Names shared by the modules of this development: the libraries', passed on, and those of the
-- children below (tests on numbers, lists, integers, Go strings, results).
mod Tests
mod Lists
mod Int
mod Strings
mod Results
pub mod Texts
pub mod Sorting
pub use Tests.*
pub use Lists.*
unfoldable pub use Int.{◌+ℤ◌, ◌-ℤ◌, ◌*ℤ◌, quot_ℤ, floor_ℤ, mod_ℤ, wrap64, saturate64}
pub use Int.{
  ℤ, pos, negsuc, pos_part, neg_part, ◌≤ℤ◌, ltb_ℤ, eqb_ℤ, int_of, neg_ℤ, ltb_ℤ→lt, eqb_ℤ_iff,
  +ℤ_parts, -ℤ_parts, eq_of_parts, int_laws, abs_ℤ, to_int64,
}
unfoldable pub use Strings.{text_eq, text_ltb, decimal, pad, print_ℤ, value}
pub use Strings.{
  Text, codes, text_eq_iff, text_eq_refl, text_ltb-asym, text_ltb-negtrans, is_empty, is_digit,
  IsDigits, decimal-IsDigits, value-decimal, is_empty-decimal,
}
pub use Results.{Err, not_found, canceled, failed, Outcome, ok, err, ◌>>=◌, ◌>>◌}
pub use Prim.Native.Nat.{ℕ, zero, suc, ◌+◌, ◌-◌, ◌*◌, ◌/◌, ◌%◌, ◌^◌, ◌≤◌, ◌<◌}
pub use Prim.Native.String.{String}
pub use mathlib.Core.Path.{◌≡◌, refl, sym, ap, ◌∙◌, fun_ext, subst}
pub use mathlib.Core.Logic.{◌≢◌, ◌↔◌, ◌⊎◌, inl, inr}
pub use mathlib.Core.Bool.{Bool, true, false, not, ◌&&◌, ◌||◌}
pub use mathlib.Core.Option.{Option, none, some}
pub use mathlib.Core.List.{List, [], ◌∷◌, ◌++◌, map, append_assoc, append-nil}
pub use native.Mathlib.Omega.{arith}
