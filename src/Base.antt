-- ===== src/Base.antt =====
-- What the components share: the libraries' names, passed on, tests on numbers and texts, lists,
-- and the outcomes of calls to Redis and Postgres.
mod Tests
mod Lists
mod Calls
mod Bytes
mod Numerals
mod Printed
mod Paths
pub use Tests.*
pub use Lists.*
pub use Calls.*
unfoldable pub use Bytes.*
unfoldable pub use Numerals.*
pub use Printed.*
unfoldable pub use Paths.*
pub use Prim.Native.Nat.{ℕ, zero, suc, ◌+◌, ◌-◌, ◌*◌, ◌^◌, ◌≤◌, ◌<◌, pred}
pub use Prim.Native.String.{String}
pub use mathlib.Core.Path.{◌≡◌, refl, sym, ap, subst, ◌∙◌, fun_ext}
pub use mathlib.Core.Logic.{◌≢◌, ◌↔◌, ◌⊎◌, inl, inr}
pub use mathlib.Core.Bool.{Bool, true, false, not, ◌&&◌, ◌||◌}
pub use mathlib.Core.Option.{Option, none, some}
pub use mathlib.Core.List.{List, [], ◌∷◌, ◌++◌, map}
pub use native.Mathlib.Omega.{arith}
pub use text.Mathlib.Text.{◌==◌ as str_eq}
pub use text.Mathlib.TextEquality.{eq_iff}
