-- ===== src/Prelude.antt =====
-- The names that every module shares: the libraries', passed on, and those of the children
-- `Tests` (Boolean tests), `Lists` (lists measured by native numbers), `Words` (the saturating
-- arithmetic of Rust's unsigned integers), `Equality` (decidable equality as an interface), `Assoc`
-- (`std::collections::HashMap` as an association list), `HashSet` and `OrderedSet` (sets as lists),
-- `Occurs` (how often a value stands in a list), `Weigh` (sums over its entries) and `Int` (signed
-- integers, and those of 32 bits).
mod Tests
mod Lists
mod Words
mod Equality
pub mod Assoc
pub mod Occurs
pub mod Weigh
pub mod Int
pub mod OrderedSet
pub mod HashSet
pub use Tests.*
unfoldable pub use Lists.*
pub use Words.*
pub use Equality.*
pub use Prim.Native.Nat.{ℕ, zero, suc, ◌+◌, ◌-◌, ◌*◌, ◌/◌, ◌%◌, ◌^◌, ◌≤◌, ◌<◌, min, max}
pub use mathlib.Core.Path.{◌≡◌, refl, sym, ap, subst, ◌∙◌}
pub use mathlib.Core.Logic.{◌≢◌, ◌↔◌, ◌⊎◌, inl, inr}
pub use mathlib.Core.Bool.{Bool, true, false, not, ◌&&◌, ◌||◌}
pub use mathlib.Core.Option.{Option, none, some}
pub use mathlib.Core.List.{List, [], ◌∷◌, ◌++◌, map}
pub use native.Mathlib.Omega.{arith}
