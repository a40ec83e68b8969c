-- ===== src/Base.antt =====
-- The names that the other modules share: the libraries', passed on, and the helpers of the
-- modules below. `◌<>◌` is `operator+` of std::string.
mod Tests
mod Lists
mod Texts
mod Maps
mod Tables
mod Decimal
pub use Tests.*
pub use Lists.*
pub use Texts.*
pub use Maps.{Assoc, lookup-assign, lookup-assign_same, lookup-erase, length-assign_present}
unfoldable pub use Maps.{lookup, assign, erase}
pub use Tables.{passes_of_table}
pub use Decimal.{starts_with_digit, is_digit, scan-to_string, starts_with_digit-to_string}
unfoldable pub use Decimal.{to_string, scan}
unfoldable pub use Tables.{passes_below}
pub use Prim.Native.Nat.{ℕ, zero, suc, ◌+◌, ◌-◌, ◌*◌, ◌/◌, ◌%◌, ◌^◌, ◌≤◌, ◌<◌, min, max}
pub use Prim.Native.String.{String}
pub use mathlib.Core.Path.{◌≡◌, refl, sym, ap, ◌∙◌, subst}
pub use mathlib.Core.Logic.{◌≢◌, ◌↔◌, ◌⊎◌, inl, inr}
pub use mathlib.Core.Bool.{Bool, true, false, not, ◌&&◌, ◌||◌, false≢true}
pub use mathlib.Core.Option.{Option, none, some}
pub use mathlib.Core.List.{List, [], ◌∷◌, ◌++◌, map, append-nil, append_assoc}
pub use native.Mathlib.Omega.{arith}
unfoldable pub use native.Mathlib.Decide.{dec_lt, ℕ_discrete}
