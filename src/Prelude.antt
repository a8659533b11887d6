-- ===== src/Prelude.antt =====
-- The names that the other modules share: those of the libraries, and of four children.
mod Tests
mod Lists
mod Text
mod Dicts
mod Outcome
pub use Tests.*
pub use Lists.*
pub use Text.{Str, eq_iff, eq_refl, is_empty, codes}
unfoldable pub use Text.{◌==◌, strip}
pub use Dicts.{
  Dict, get, put, pop, contains, values, member, discard, total, IsDistinct, get-put, get-pop,
  put-cases, pop-kept, get-put_self, pop-IsDistinct, put-IsDistinct, total-put, worth, total-pop,
  dict_laws, member-append, member-discard, IsUnique, IsUnique-append, IsUnique-discard, size,
  size-put, size-pop,
}
pub use Outcome.*
pub use Prim.Native.Nat.{ℕ, zero, suc, ◌+◌, ◌-◌, ◌*◌, ◌/◌, ◌%◌, ◌^◌, ◌≤◌, ◌<◌, min, max}
pub use mathlib.Core.Path.{◌≡◌, refl, sym, ap, ◌∙◌}
pub use mathlib.Core.Logic.{◌≢◌, ◌↔◌, ◌⊎◌, inl, inr}
pub use mathlib.Core.Bool.{Bool, true, false, not, ◌&&◌, ◌||◌}
pub use mathlib.Core.Option.{Option, none, some}
pub use mathlib.Core.List.{List, [], ◌∷◌, ◌++◌, map}
pub use native.Mathlib.Omega.{arith}
