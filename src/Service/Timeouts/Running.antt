-- ===== src/Service/Timeouts/Running.antt =====
-- framework/base/service.go: MainLoop's timeout actions with the goroutines that write them and wait,
-- as a step relation.
use common_fw.Common.{ℕ, Bool, true, false, none, some, List, ◌∷◌, ◌++◌, ◌≡◌, ok}
use common_fw.Service.Timeouts.{TimeoutAction, Timers, Waiter, Processed, run, process_action}

-- The service and what runs beside it: the actions that are on their way to the channel, in any
-- order, and the goroutines that wait.
pub record System : Type 0 where
  pub timers : Timers
  pub sent : List TimeoutAction
  pub waiters : List Waiter

-- What a goroutine writes when its time has passed.
abbrev pub expired : Waiter → TimeoutAction
expired w = record {
  chan_type = run;
  action_id = w.action_id;
  wait_time = w.wait_time;
  action = none;
  repeat = w.repeat;
}

abbrev pub new_timers : Timers
new_timers = record {
  timeout_action_map = λ id. none;
  del_timeout_action = λ id. none;
  timer_info = λ id. none;
  pause_timer_event = λ id. none;
  made = 0;
  closed = λ c. false;
}

module _ (debug : Bool) (panics : ℕ → Bool) where
  pub data Step : System → System → Type 0 where
    -- AddTimeoutAction and its like, from any goroutine.
    requests :
        (t : Timers) (sent : List TimeoutAction) (ws : List Waiter) (a : TimeoutAction)
        → Step
            (record { timers = t; sent = sent; waiters = ws })
            (record { timers = t; sent = a ∷ sent; waiters = ws })
    -- MainLoop takes an action and processes it.
    processes :
        (now : ℕ) (a : TimeoutAction) (t : Timers) (before behind : List TimeoutAction)
        (ws : List Waiter) (p : Processed) {s : List TimeoutAction}
        → s ≡ before ++ (a ∷ behind)
        → process_action debug panics now a t ≡ ok p
        → Step
            (record { timers = t; sent = s; waiters = ws })
            (record {
              timers = p.timers;
              sent = p.written ++ (before ++ behind);
              waiters = p.started ++ ws;
            })
    -- A goroutine's time passes; it may, even if its channel is closed.
    expires :
        (t : Timers) (sent : List TimeoutAction) (w : Waiter) (before behind : List Waiter)
        {ws : List Waiter}
        → ws ≡ before ++ (w ∷ behind)
        → Step
            (record { timers = t; sent = sent; waiters = ws })
            (record { timers = t; sent = expired w ∷ sent; waiters = before ++ behind })
    -- A goroutine's channel is closed.
    cancelled :
        (t : Timers) (sent : List TimeoutAction) (w : Waiter) (ch : ℕ) (before behind : List Waiter)
        {ws : List Waiter}
        → ws ≡ before ++ (w ∷ behind)
        → w.channel ≡ some ch
        → t.closed ch ≡ true
        → Step
            (record { timers = t; sent = sent; waiters = ws })
            (record { timers = t; sent = sent; waiters = before ++ behind })

  pub data Steps : System → System → Type 0 where
    done : {s : System} → Steps s s
    then_step : {s t u : System} → Steps s t → Step t u → Steps s u
