-- ===== src/Base.antt =====
-- The names that every module shares: the libraries', passed on, and those of the children.
mod Tests
mod Lists
pub use Lists.{
  length, filter, find, any, all, count, is_empty, length-append, All, All-sort_by, All-filter,
  All-map, All-Memᴰ, length-map, any-true, any_of_mem, Memᴰ-sort_by, Memᴰ-filter,
}
unfoldable pub use Tests.{str_eq, take_text}
unfoldable pub use Lists.{sort_by}
pub use Tests.{
  str_le, ltb, leb, ◌==◌, if◌then◌else◌, str_eq_iff, str_eq_refl, leb→le, ltb→lt, ==_iff,
  Bool-cases, Option-cases, &&-split, if-eq-some, else-eq-some, then-eq, else-eq, six_parts,
}
pub use Prim.Native.Nat.{ℕ, zero, suc, ◌+◌, ◌-◌, ◌*◌, ◌/◌, ◌%◌, ◌^◌, ◌≤◌, ◌<◌, min}
pub use Prim.Native.String.{String}
pub use mathlib.Core.Path.{◌≡◌, refl, sym, ap, ◌∙◌}
pub use mathlib.Core.Logic.{◌≢◌, ◌↔◌, ◌⊎◌, inl, inr}
pub use mathlib.Core.Bool.{Bool, true, false, not, ◌&&◌, ◌||◌}
pub use mathlib.Core.Option.{Option, none, some}
pub use mathlib.Core.List.{List, [], ◌∷◌, ◌++◌, map}
pub use native.Mathlib.Omega.{arith}
