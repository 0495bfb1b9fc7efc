-- ===== src/Common/Entries.antt =====
-- Go's maps that the code ranges over: the entries in the order in which the range visits them.
use Prim.Native.Nat.{ℕ}
use mathlib.Core.Path.{◌≡◌, refl}
use mathlib.Core.Logic.{◌≢◌}
use mathlib.Core.Option.{Option, none, some}
use mathlib.Core.List.{List, [], ◌∷◌}
use native.Mathlib.Omega.{arith}
use common_fw.Common.Tests.{◌==◌, if◌then◌else◌}

pub record Entry (V : Type 0) : Type 0 where
  pub key : ℕ
  pub value : V

abbrev pub Assoc : Type 0 → Type 0
Assoc V = List (Entry V)

module _ {V : Type 0} where
  abbrev pub lookup : Assoc V → ℕ → Option V
  lookup [] k = none
  lookup (e ∷ es) k = if e.key == k then some e.value else lookup es k

  -- `m[k] = v`
  abbrev pub assign : Assoc V → ℕ → V → Assoc V
  assign [] k v = record { key = k; value = v } ∷ []
  assign (e ∷ es) k v = if e.key == k then record { key = k; value = v } ∷ es else e ∷ assign es k v

  -- `delete(m, k)`
  abbrev pub erase : Assoc V → ℕ → Assoc V
  erase [] k = []
  erase (e ∷ es) k = if e.key == k then erase es k else e ∷ erase es k

  pub lookup-assign_same : (m : Assoc V) (k : ℕ) (v : V) → lookup (assign m k v) k ≡ some v
  lookup-assign_same [] k v = ground arith
  lookup-assign_same (e ∷ es) k v = ground (arith, lookup-assign_same es k v)

  pub lookup-assign_other :
      (m : Assoc V) (k j : ℕ) (v : V) → j ≢ k → lookup (assign m k v) j ≡ lookup m j
  lookup-assign_other [] k j v h = ground arith
  lookup-assign_other (e ∷ es) k j v h = ground (arith, lookup-assign_other es k j v h)

  pub lookup-erase_same : (m : Assoc V) (k : ℕ) → lookup (erase m k) k ≡ none
  lookup-erase_same [] k = refl
  lookup-erase_same (e ∷ es) k = ground (arith, lookup-erase_same es k)

  pub lookup-erase_other : (m : Assoc V) (k j : ℕ) → j ≢ k → lookup (erase m k) j ≡ lookup m j
  lookup-erase_other [] k j h = refl
  lookup-erase_other (e ∷ es) k j h = ground (arith, lookup-erase_other es k j h)
