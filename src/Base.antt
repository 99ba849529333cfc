-- ===== src/Base.antt =====
-- The names that the components share: the libraries', passed on, and those of the children
-- (Boolean tests, lists over the native numbers, signed integers, fixed-width arithmetic).
mod Tests
mod Lists
mod Texts
mod Int
mod Words
mod Decimal
pub use Tests.*
pub use Lists.*
unfoldable pub use Texts.*
pub use Int.*
pub use Words.*
unfoldable pub use Decimal.{digits, to_string}
pub use Decimal.{to_string-injective, cancel_suffix, IsSuffix, to_string-All}
pub use Prim.Native.Nat.{ℕ, zero, suc, ◌+◌, ◌-◌, ◌*◌, ◌/◌, ◌%◌, ◌^◌, ◌≤◌, ◌<◌, max, min}
pub use mathlib.Core.Path.{◌≡◌, refl, sym, ap, subst, ◌∙◌}
pub use mathlib.Core.Logic.{◌≢◌, ◌↔◌, ◌⊎◌, inl, inr}
pub use mathlib.Core.Bool.{Bool, true, false, not, ◌&&◌, ◌||◌}
pub use mathlib.Core.Option.{Option, none, some}
pub use mathlib.Core.List.{List, [], ◌∷◌, ◌++◌, map, map-append, append-nil, append_assoc}
pub use native.Mathlib.Omega.{arith}
