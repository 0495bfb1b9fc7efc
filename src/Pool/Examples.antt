-- ===== src/Pool/Examples.antt =====
-- A pool of two goroutines, and a task that is handed over.
use common_fw.Common.{occurrences, ℕ, ◌+◌, ◌<◌, List, [], ◌∷◌, ◌++◌, length, ◌≡◌, refl, arith}
use common_fw.Pool.{
  Dispatch, RoutinePool, new_pool, start, register, take_idle, hand_over, Steps, starts,
  becomes_idle, takes, hands_over, done, then_step, registers, waits, running, total, held,
}
use common_fw.Pool.Working.{Steps-dispatch}

abbrev idle_pool : RoutinePool
idle_pool = register 1 (start (new_pool 2))

abbrev dispatch : Dispatch
dispatch = record { task_chan = 1; task = 7 }

abbrev taken : RoutinePool
taken = take_idle 1 [] 7 idle_pool

abbrev busy_pool : RoutinePool
busy_pool = hand_over dispatch [] taken

runs_task : Steps (new_pool 2) busy_pool
unfolding start register take_idle hand_over
runs_task = then_step (starts (new_pool 2)) (
    then_step (becomes_idle (start (new_pool 2)) 1 refl (omega arith)) (
      then_step (takes idle_pool 1 [] 7 refl)
        (then_step (hands_over taken [] dispatch [] refl refl) (done _))))

Steps-dispatch_example :
    ((i : ℕ) → busy_pool.routines i ≡ registers → length busy_pool.idle_task_chan < busy_pool.size)
    × ((before : List Dispatch) (d : Dispatch) (after : List Dispatch)
        → busy_pool.dispatches ≡ before ++ (d ∷ after)
        → busy_pool.routines d.task_chan ≡ waits)
    × ((i : ℕ)
        → busy_pool.routines i ≡ waits
        → occurrences i busy_pool.idle_task_chan + held i busy_pool.dispatches ≡ 1)
    × ((t : ℕ)
        → occurrences t busy_pool.accepted
          ≡ occurrences t busy_pool.finished + total (running t) busy_pool.size busy_pool.routines)
Steps-dispatch_example = Steps-dispatch 2 busy_pool runs_task
