-- ===== src/Prelude.antt =====
-- The names that the other modules share: library names passed on, Boolean tests, and children
-- for lists, for insertion-ordered dictionaries and for signed durations.
mod Tests
mod Lists
mod Dicts
mod Int
pub use Tests.*
pub use Lists.*
pub use Dicts.*
pub use Int.*
pub use Prim.Native.Nat.{ℕ, zero, suc, ◌+◌, ◌-◌, ◌≤◌, ◌<◌, max}
pub use mathlib.Core.Path.{◌≡◌, refl, sym, ap, ◌∙◌}
pub use mathlib.Core.Logic.{◌≢◌, ◌↔◌, ◌⊎◌, inl, inr}
pub use mathlib.Core.Bool.{Bool, true, false, not, ◌&&◌, ◌||◌}
pub use mathlib.Core.Option.{Option, none, some}
pub use mathlib.Core.List.{List, [], ◌∷◌, ◌++◌, map}
pub use native.Mathlib.Omega.{arith}
