-- ===== src/Base.antt =====
-- The names that all modules share: the libraries', passed on, the tests on numbers, and the
-- types that stand for Rust's texts, instants, lists and maps.
mod Tests
mod Lists
mod Texts
pub mod Int
pub mod Results
pub mod Decimal
pub mod Maps
pub mod Strings
pub use Tests.*
pub use Lists.*
pub use Texts.*
unfoldable pub use Texts.{text_eq, text_lt, starts_with}
pub use Prim.Native.Nat.{ℕ, zero, suc, ◌+◌, ◌-◌, ◌*◌, ◌/◌, ◌%◌, ◌^◌, ◌≤◌, ◌<◌, min, max}
pub use mathlib.Core.Path.{◌≡◌, refl, sym, ap, ◌∙◌}
pub use mathlib.Core.Logic.{◌≢◌, ◌↔◌, ◌⊎◌, inl, inr}
pub use mathlib.Core.Bool.{Bool, true, false, not, ◌&&◌, ◌||◌}
pub use mathlib.Core.Option.{Option, none, some}
pub use mathlib.Core.List.{
  List, [], ◌∷◌, ◌++◌, map, filter_map, append_assoc, append-nil, map-append,
}
pub use native.Mathlib.Omega.{arith}
