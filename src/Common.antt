-- ===== src/Common.antt =====
-- Names that every module shares: the library's, passed on, and the helpers of two children.
mod Tests
mod Lists
mod Words
mod Int
mod Maps
mod Entries
mod Runs
pub use Tests.*
pub use Lists.*
pub use Words.*
pub use Int.*
pub use Maps.*
pub use Entries.*
pub use Runs.{Outcome, ok, panic, stuck, ◌>>=◌}
pub use Prim.Native.Nat.{bit_or, ℕ, zero, suc, ◌+◌, ◌-◌, ◌*◌, ◌/◌, ◌%◌, ◌^◌, ◌≤◌, ◌<◌}
pub use mathlib.Core.Path.{◌≡◌, refl, sym, ap, ◌∙◌, fun_ext, subst}
pub use mathlib.Core.Logic.{◌≢◌, ◌↔◌, ◌⊎◌, inl, inr}
pub use mathlib.Core.Bool.{Bool, true, false, not, ◌&&◌, ◌||◌}
pub use mathlib.Core.Option.{Option, none, some}
pub use mathlib.Core.List.{List, [], ◌∷◌, ◌++◌, map}
pub use native.Mathlib.Omega.{arith}
