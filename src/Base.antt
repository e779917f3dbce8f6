-- ===== src/Base.antt =====
-- Names that every component uses: library names passed on, Boolean tests, lists measured by native
-- numbers, byte strings, and association lists that stand for `HashMap`.
mod Tests
mod Lists
mod Keys
mod Maps
mod Results
mod Words
mod Strings
pub use Tests.*
pub use Lists.*
unfoldable pub use Keys.*
unfoldable pub use Maps.*
pub use Results.*
pub use Words.*
unfoldable pub use Strings.*
pub use Prim.Native.Nat.{ℕ, zero, suc, ◌+◌, ◌-◌, ◌*◌, ◌/◌, ◌%◌, ◌^◌, ◌≤◌, ◌<◌, min}
pub use mathlib.Core.Path.{◌≡◌, refl, sym, ap, ◌∙◌, subst}
pub use mathlib.Core.Logic.{◌≢◌, ◌↔◌, ◌⊎◌, inl, inr}
pub use mathlib.Core.Bool.{Bool, true, false, ◌&&◌, ◌||◌, not}
pub use mathlib.Core.Option.{Option, none, some}
pub use mathlib.Core.List.{List, [], ◌∷◌, ◌++◌, map, append-nil, append_assoc}
pub use native.Mathlib.Omega.{arith}
