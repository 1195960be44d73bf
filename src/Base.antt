-- ===== src/Base.antt =====
-- The names that all modules share: library names passed on, Boolean tests, lists measured by
-- native numbers, and Go strings as byte lists.
mod Tests
mod Lists
mod Text
mod Maps
mod Sort
pub mod Int
pub mod Decimal
pub use Tests.*
pub use Lists.*
pub use Text.{Bytes, codes, to_lower}
unfoldable pub use Text.{str_eq, str_leb, starts_with}
pub use Text.{
  str_eq_iff, str_eq_refl, str_eq_comm, str_leb_refl, str_leb_total, str_leb_trans, str_leb_antisym,
}
unfoldable pub use Maps.{entry_of}
unfoldable pub use Sort.{insert_row, sort_rows}
pub use Sort.{any-sort_rows, length-sort_rows, count-sort_rows, All-sort_rows, All-map, length-map}
pub use Prim.Native.Nat.{ℕ, zero, suc, ◌+◌, ◌-◌, ◌*◌, ◌/◌, ◌%◌, ◌^◌, ◌≤◌, ◌<◌}
pub use mathlib.Core.Path.{◌≡◌, refl, sym, ap, ◌∙◌}
pub use mathlib.Core.Logic.{◌≢◌, ◌↔◌, ◌⊎◌, inl, inr}
pub use mathlib.Core.Bool.{Bool, true, false, not, ◌&&◌, ◌||◌}
pub use mathlib.Core.Option.{Option, none, some}
pub use mathlib.Core.List.{List, [], ◌∷◌, ◌++◌, map}
pub use native.Mathlib.Omega.{arith}
