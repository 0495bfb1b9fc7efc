-- ===== src/Service/Timeouts/Examples.antt =====
-- Runs of the timers, and their theorems there.
use common_fw.Common.{ℕ, ◌≡◌, refl, Bool, true, false, some, none, [], ◌∷◌, panic, ok, pos}
use common_fw.Service.Timeouts.{
  TimeoutAction, TimerInfo, Timers, Waiter, Processed, processed, register, add_timeout_action_ex,
  delete_timeout_action, add_action, process_action,
}
use common_fw.Service.Timeouts.Running.{
  new_timers, expired, Steps, done, then_step, requests, processes,
}
use common_fw.Service.Timeouts.Keeping.{register-IsSound, Steps-IsSound}
use common_fw.Service.Timeouts.Deleting.{IsSound, new_timers-IsSound}
use common_fw.Service.Timeouts.Lifecycle.{Steps-revive}

-- A timer 7 that calls function 3 after 50 nanoseconds, added at 100.
abbrev seven : TimeoutAction
seven = add_timeout_action_ex (pos 50) 7 (some 3) true

abbrev with_seven : Timers
with_seven = register 100 seven new_timers

with_seven-IsSound : IsSound with_seven
with_seven-IsSound = register-IsSound 100 seven new_timers new_timers-IsSound refl

abbrev never : ℕ → Bool
never f = false

abbrev seven_waits : Waiter
seven_waits = record { channel = some 0; wait_time = pos 50; action_id = 7; repeat = true }

add_seven : (add_action 100 seven new_timers).started ≡ seven_waits ∷ []
unfolding add_action
add_seven = refl

Steps-IsSound_example : IsSound with_seven
Steps-IsSound_example =
    Steps-IsSound false never
      (then_step (then_step done (requests new_timers [] [] seven)) (
        processes 100 seven new_timers [] [] [] (processed with_seven (seven_waits ∷ []) []) refl
          (unfold process_action add_action in refl)))
      new_timers-IsSound

abbrev seven_info : TimerInfo
seven_info = record { start_time = 100; pause_time = 0; wait_time = pos 50; action = some 3 }

Steps-revive_example :
    (p p' p'' : Processed) × (a : TimeoutAction) × (w' : Waiter) × (process_action false never 150
        (expired seven_waits)
        with_seven
      ≡ ok p)
    × (p.written ≡ a ∷ [])
    × (process_action false never 160 (delete_timeout_action 7) p.timers ≡ ok p')
    × (p'.timers.timeout_action_map 7 ≡ none)
    × (process_action false never 170 a p'.timers ≡ ok p'')
    × (p''.timers.timeout_action_map 7 ≡ some none)
    × (p''.started ≡ w' ∷ [])
    × ((later : ℕ) → process_action true never later (expired w') p''.timers ≡ panic)
    × Steps false never
        (record {
          timers = with_seven;
          sent = expired seven_waits ∷ delete_timeout_action 7 ∷ [];
          waiters = [];
        })
        (record { timers = p''.timers; sent = []; waiters = w' ∷ [] })
Steps-revive_example =
    Steps-revive false never with_seven seven_waits 3 [] [] 150 160 170 with_seven-IsSound refl refl
      refl
