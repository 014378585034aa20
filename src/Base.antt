-- ===== src/Base.antt =====
-- The names that the other modules share: the libraries', passed on, and those of the children.
mod Tests
mod Lists
mod Equality
mod Maps
mod Results
mod Text
mod Int
pub use Tests.*
pub use Results.{Result, ok, err, ◌>>=◌, >>=-eq-ok, Result-cases}
pub use Int.{ℤ, pos, negsuc, sub_ℕ, offset_by, is_neg}
pub use Text.{Bytes, codes}
pub use Lists.*
pub use Equality.{Eq, ◌=?◌, nat_eq, list_eq, list_beq_iff, pair_eq}
unfoldable pub use Equality.{list_beq}
pub use Maps.{
  Map, lookup-insert, lookup-delete, size-insert, size-delete, IsNodup, insert-IsNodup,
  delete-IsNodup, has,
}
unfoldable pub use Maps.{lookup, insert, delete, size}
pub use Prim.Native.Nat.{ℕ, zero, suc, ◌+◌, ◌-◌, ◌*◌, ◌/◌, ◌%◌, ◌^◌, ◌≤◌, ◌<◌, min}
pub use mathlib.Core.Path.{◌≡◌, refl, sym, ap, ◌∙◌, subst}
pub use mathlib.Core.Logic.{◌≢◌, ◌↔◌, ◌⊎◌, inl, inr}
pub use mathlib.Core.Bool.{Bool, true, false, not, ◌&&◌, ◌||◌}
pub use mathlib.Core.Option.{Option, none, some}
pub use mathlib.Core.List.{List, [], ◌∷◌, ◌++◌, map, append-nil, append_assoc}
pub use native.Mathlib.Omega.{arith}
pub use native.Mathlib.Nat.{div-add-mod, mod-lt}
