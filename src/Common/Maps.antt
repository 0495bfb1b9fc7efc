-- ===== src/Common/Maps.antt =====
-- Go's maps as functions from keys to entries. A key that is a text, and only compared, is a number.
use Prim.Native.Nat.{ℕ}
use mathlib.Core.Bool.{Bool, true, false}
use mathlib.Core.Option.{Option, none, some}
use common_fw.Common.Tests.{◌==◌, if◌then◌else◌}

abbrev pub Map : Type 0 → Type 0
Map V = ℕ → Option V

module _ {V : Type 0} where
  abbrev pub empty_map : Map V
  empty_map k = none

  -- `m[k] = v`
  abbrev pub put : Map V → ℕ → V → Map V
  put m k v j = if j == k then some v else m j

  -- `delete(m, k)`
  abbrev pub remove : Map V → ℕ → Map V
  remove m k j = if j == k then none else m j

  abbrev pub exists : Option V → Bool
  exists none = false
  exists (some v) = true
