-- ===== src/Base.antt =====
-- Shared vocabulary of the development: library names passed on, Boolean tests, lists over the
-- native numbers, Go's `int64`, Go's byte strings and Go's maps with string keys.
mod Tests
mod Lists
pub mod Int
pub mod Word
pub mod Float
pub mod Regexp
pub mod Result
pub mod Header
pub mod Json
pub mod Url
pub mod Number
pub mod Lines
pub mod Text
pub mod Dict
pub use Tests.*
pub use Lists.*
pub use Prim.Native.Nat.{ℕ, zero, suc, ◌+◌, ◌-◌, ◌*◌, ◌/◌, ◌%◌, ◌^◌, ◌≤◌, ◌<◌}
pub use mathlib.Core.Path.{◌≡◌, refl, sym, ap, ◌∙◌}
pub use mathlib.Core.Logic.{◌≢◌, ◌↔◌, ◌⊎◌, inl, inr}
pub use mathlib.Core.Bool.{Bool, true, false, not, ◌&&◌, ◌||◌}
pub use mathlib.Core.Option.{Option, none, some}
pub use mathlib.Core.List.{List, [], ◌∷◌, ◌++◌, map, foldl, append_assoc, append-nil}
pub use native.Mathlib.Omega.{arith}
