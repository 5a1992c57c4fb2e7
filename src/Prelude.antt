-- ===== src/Prelude.antt =====
-- The names that the other modules share: the libraries', passed on, and those of the children:
-- tests and conditionals, signed amounts of cents, rows of a table, results of a request.
mod Tests
mod Lists
mod Results
pub mod Int
pub mod Rows
pub mod Text
pub use Tests.*
pub use Lists.*
pub use Results.{
  Result, ok, err, throw_if, or_throw, >>=-eq-ok, >>=-eq-err, ok-injective, ok-value, ok-ne,
  or_throw-eq-ok, ◌>>◌, Result-cases, throw_if-eq_ok, not-false,
}
unfoldable pub use Results.{◌>>=◌}
pub use Prim.Native.Nat.{ℕ, zero, suc, ◌+◌, ◌-◌, ◌*◌, ◌/◌, ◌%◌, ◌≤◌, ◌<◌, min}
pub use Prim.Native.String.{String}
pub use mathlib.Core.Path.{◌≡◌, refl, sym, ap, ◌∙◌}
pub use mathlib.Core.Logic.{◌≢◌, ◌↔◌, ◌⊎◌, inl, inr}
pub use mathlib.Core.Bool.{Bool, true, false, not, ◌&&◌, ◌||◌}
pub use mathlib.Core.Option.{Option, none, some}
pub use mathlib.Core.List.{List, [], ◌∷◌, ◌++◌, map}
pub use native.Mathlib.Omega.{arith}
pub use text.Mathlib.TextEquality.{eq_iff}
