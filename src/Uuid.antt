-- ===== src/Uuid.antt =====
-- component/uuid/uuid.go: the generator of ids, and its use by several goroutines.
pub mod Distinct
mod Examples
use common_fw.Common.{ℕ, zero, suc, ◌+◌, ◌%◌, ◌^◌, List, ◌∷◌, ◌++◌, ◌==◌, if◌then◌else◌}

-- What GenID adds, by the id that it reads first.
abbrev pub increment : ℕ → ℕ
increment id = if id == 0xffffffff then 2 else 1

-- atomic.AddUint32, which returns the new value.
abbrev pub add_uint32 : ℕ → ℕ → ℕ
add_uint32 id delta = (id + delta) % 2 ^ 32

-- A call that no other call interrupts: the id that it returns is the state that it leaves.
unfoldable pub gen_id : ℕ → ℕ
gen_id id = add_uint32 id (increment id)

-- The id that the call after `n` others returns.
unfoldable pub nth_id : ℕ → ℕ → ℕ
nth_id zero id = gen_id id
nth_id (suc n) id = nth_id n (gen_id id)

-- Calls that interleave: what those that have read will add, and the ids returned so far.
pub record UuidGen : Type 0 where
  pub id : ℕ
  pub pending : List ℕ
  pub issued : List ℕ

-- A call reads the id, and adds later.
pub data Step : UuidGen → UuidGen → Type 0 where
  reads :
      (id : ℕ) (pending issued : List ℕ)
      → Step
          (record { id = id; pending = pending; issued = issued })
          (record { id = id; pending = increment id ∷ pending; issued = issued })
  adds :
      (id delta : ℕ) (before behind issued : List ℕ)
      → Step
          (record { id = id; pending = before ++ (delta ∷ behind); issued = issued })
          (record {
            id = add_uint32 id delta;
            pending = before ++ behind;
            issued = add_uint32 id delta ∷ issued;
          })

pub data Steps : UuidGen → UuidGen → Type 0 where
  done : (s : UuidGen) → Steps s s
  then_step : (s t u : UuidGen) → Step s t → Steps t u → Steps s u
