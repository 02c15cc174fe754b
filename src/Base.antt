-- ===== src/Base.antt =====
-- Names that every module shares: the libraries', passed on, and those of the children.
mod Tests
mod Texts
mod Integers
mod Results
mod Lists
mod TextOrder
mod Decimals
mod Sorting
mod Dicts
pub use Tests.*
pub use Results.*
pub use Lists.*
pub use Integers.*
pub use Sorting.{
  IsOrder, IsSorted, NotBelow, Apart, All-sorted, sorted-perm, sorted-IsSorted, sorted-eq_of_perm,
}
unfoldable pub use Sorting.{sorted, insert_sorted}
pub use TextOrder.{text_lt_asym, text_lt_not_trans, text_lt_total}
unfoldable pub use TextOrder.{text_lt}
pub use Decimals.{Decimal, of_ℕ, dec_ltb_asym, dec_ltb_not_trans}
unfoldable pub use Decimals.{in_context, mul, add, per_million, dec_ltb, dec_eqb, Decimal-discrete}
pub use Dicts.{Dict, lookup-insert_self, lookup-insert_ne, lookup-insert_cases}
unfoldable pub use Dicts.{lookup, insert}
pub use Texts.{Text, text_eq, codes}
unfoldable pub use Texts.{Text-discrete, strip, is_normalized}
pub use Prim.Native.Nat.{ℕ, zero, suc, ◌+◌, ◌-◌, ◌*◌, ◌/◌, ◌%◌, ◌^◌, ◌≤◌, ◌<◌}
pub use mathlib.Core.Path.{◌≡◌, refl, sym, ap, subst, ◌∙◌}
pub use mathlib.Core.Logic.{◌≢◌, ◌↔◌, ◌⊎◌, inl, inr}
pub use mathlib.Core.Bool.{Bool, true, false, ◌&&◌, ◌||◌, not}
pub use mathlib.Core.Option.{Option, none, some}
pub use mathlib.Core.List.{List, [], ◌∷◌, ◌++◌, map}
pub use native.Mathlib.Omega.{arith}
unfoldable pub use native.Mathlib.Decide.{ℕ_discrete}
