-- ===== src/Prelude.antt =====
-- The names that the other modules share: those of the libraries, Boolean tests, byte strings
-- and association maps.
pub mod Tests
pub mod Lists
pub mod Strings
pub mod Assoc
pub mod Result
pub mod Int
pub mod Act
pub use Tests.*
pub use Lists.*
pub use Strings.*
unfoldable pub use Strings.{text_eq, is_prefix, text_less}
pub use Prim.Native.Nat.{ℕ, zero, suc, ◌+◌, ◌-◌, ◌*◌, ◌/◌, ◌%◌, ◌^◌, ◌≤◌, ◌<◌}
pub use Prim.Native.String.{String}
pub use mathlib.Core.Path.{◌≡◌, refl, sym, ap, ◌∙◌}
pub use mathlib.Core.Logic.{◌≢◌, ◌↔◌, ◌⊎◌, inl, inr}
pub use mathlib.Core.Bool.{Bool, true, false, not, ◌&&◌, ◌||◌}
pub use mathlib.Core.Option.{Option, none, some}
pub use mathlib.Core.List.{List, [], ◌∷◌, ◌++◌, map}
pub use native.Mathlib.Omega.{arith}
