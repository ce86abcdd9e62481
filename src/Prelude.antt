-- ===== src/Prelude.antt =====
-- The names that every module shares: the libraries', passed on, and those of two children.
mod Tests
mod Lists
pub mod Int
pub use Tests.*
unfoldable pub use Lists.{keep, distinct, join}
pub use Lists.{length, length-append, length-distinct, all, any, All, All-imp, all-true, true-all}
pub use Int.{
  ≤ℤ_trans, leb_ℤ→le, ltb_ℤ→lt, min_ℤ-le_left, min_ℤ-le_right, max_ℤ-le, ℤ, pos, negsuc, ◌≤ℤ◌, ◌<ℤ◌,
  leb_ℤ, ltb_ℤ, eqb_ℤ, pos_part, neg_part,
}
unfoldable pub use Int.{◌+ℤ◌, min_ℤ, max_ℤ}
pub use Prim.Native.Nat.{ℕ, zero, suc, ◌+◌, ◌-◌, ◌*◌, ◌/◌, ◌%◌, ◌≤◌, ◌<◌}
pub use Prim.Native.String.{String}
pub use mathlib.Core.Path.{◌≡◌, refl, sym, ap, subst, ◌∙◌}
pub use mathlib.Core.Logic.{◌≢◌, ◌↔◌, ◌⊎◌, inl, inr}
pub use mathlib.Core.Bool.{Bool, true, false, not, ◌&&◌, ◌||◌}
pub use mathlib.Core.Option.{Option, none, some}
pub use mathlib.Core.List.{List, [], ◌∷◌, ◌++◌, map}
pub use native.Mathlib.Omega.{arith}
