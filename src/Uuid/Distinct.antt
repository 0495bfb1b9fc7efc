-- ===== src/Uuid/Distinct.antt =====
-- Ids of calls that follow one another differ; calls that interleave can return 0.
use common_fw.Common.{ℕ, zero, suc, ◌+◌, ◌-◌, ◌%◌, ◌^◌, ◌<◌, ◌≡◌, ◌≢◌, List, [], ◌∷◌, arith}
use common_fw.Uuid.{gen_id, nth_id, reads, adds, Steps, done, then_step}

-- A call steps through the ids from 1 to 2 ^ 32 - 1.
gen_id-cycle : (id : ℕ) → id < 2 ^ 32 → gen_id id ≡ id % (2 ^ 32 - 1) + 1
unfolding gen_id
gen_id-cycle id h = ground arith

nth_id-cycle : (n id : ℕ) → id < 2 ^ 32 → nth_id n id ≡ (id + n) % (2 ^ 32 - 1) + 1
unfolding nth_id
nth_id-cycle zero id h = omega (arith, gen_id-cycle id h)
nth_id-cycle (suc n) id h =
    omega (arith, gen_id-cycle id h, nth_id-cycle n (gen_id id) (omega (arith, gen_id-cycle id h)))

-- Calls that follow one another, whatever the state, return no 0, and different ids as long as fewer
-- than 2 ^ 32 - 1 calls lie between them.
pub nth_id-Distinct :
    (id a b : ℕ)
    → id < 2 ^ 32
    → a < b
    → b < a + (2 ^ 32 - 1)
    → (nth_id a id ≢ nth_id b id) × (nth_id a id ≢ 0)
nth_id-Distinct id a b h l k = (
  λ e. omega (arith, nth_id-cycle a id h, nth_id-cycle b id h),
  λ e. omega (arith, nth_id-cycle a id h),
)

-- The bug: the test for the greatest id and the addition are not one step. Two calls that both read
-- the id before the greatest one, and then add, return the greatest id and the reserved id 0.
pub Steps-issue_zero :
    (pending issued : List ℕ)
    → Steps
        (record { id = 0xfffffffe; pending = pending; issued = issued })
        (record { id = 0; pending = pending; issued = 0 ∷ 0xffffffff ∷ issued })
Steps-issue_zero pending issued = then_step _ _ _ (reads 0xfffffffe pending issued) (
    then_step _ _ _ (reads 0xfffffffe (1 ∷ pending) issued) (
      then_step _ _ _ (adds 0xfffffffe 1 [] (1 ∷ pending) issued)
        (then_step _ _ _ (adds 0xffffffff 1 [] pending (0xffffffff ∷ issued)) (done _))))
