-- ===== src/Service/Timeouts.antt =====
-- framework/base/service.go: the timeout actions that MainLoop processes, and the goroutines that
-- wait for them.
pub mod Deleting
pub mod Running
pub mod Keeping
pub mod Lifecycle
mod Examples
use common_fw.Common.{
  ℕ, zero, suc, ◌+◌, Bool, true, false, not, Option, none, some, List, [], ◌∷◌, ◌++◌, ◌==◌, ◌≡◌,
  if◌then◌else◌, ℤ, pos, ◌-ℤ◌, Map, put, remove, exists, Outcome, ok, panic, ◌>>=◌,
}

-- TimeoutAction.chanType: 0, 1, 2, 3 and 4; other numbers are not sent.
pub data ChanType : Type 0 where
  add delete run pause resume : ChanType

-- A function value `func(string)`, named by a number; `none` is nil.
abbrev pub Action : Type 0
Action = Option ℕ

pub record TimeoutAction : Type 0 where
  pub chan_type : ChanType
  pub action_id : ℕ
  pub wait_time : ℤ
  pub action : Action
  pub repeat : Bool

-- Times in nanoseconds.
pub record TimerInfo : Type 0 where
  pub start_time : ℕ
  pub pause_time : ℕ
  pub wait_time : ℤ
  pub action : Action

-- The maps of BaseService, and the channels made so far: their number and which are closed.
pub record Timers : Type 0 where
  pub timeout_action_map : Map Action
  pub del_timeout_action : Map ℕ
  pub timer_info : Map TimerInfo
  pub pause_timer_event : Map TimerInfo
  pub made : ℕ
  pub closed : ℕ → Bool

-- A goroutine that waits for its channel to close or for its time to pass; a nil channel is never
-- ready.
pub record Waiter : Type 0 where
  pub channel : Option ℕ
  pub wait_time : ℤ
  pub action_id : ℕ
  pub repeat : Bool

-- What one action of the loop leaves: the timers, the goroutines it starts and the actions that it
-- writes, each by a goroutine of its own.
pub record Processed : Type 0 where
  pub timers : Timers
  pub started : List Waiter
  pub written : List TimeoutAction

abbrev pub processed : Timers → List Waiter → List TimeoutAction → Processed
processed t ws actions = record { timers = t; started = ws; written = actions }

-- close(ch): a second one panics.
abbrev pub close : ℕ → Timers → Outcome Timers
close ch t =
    if t.closed ch
    then panic
    else ok (record t { closed = λ c. if c == ch then true else t.closed c })

-- The new entries of an id that the maps do not have.
abbrev pub register : ℕ → TimeoutAction → Timers → Timers
register now a t = record t {
  timeout_action_map = put t.timeout_action_map a.action_id a.action;
  del_timeout_action = put t.del_timeout_action a.action_id t.made;
  timer_info =
      put t.timer_info a.action_id
        (record { start_time = now; pause_time = 0; wait_time = a.wait_time; action = a.action });
  made = t.made + 1;
  closed = λ c. if c == t.made then false else t.closed c;
}

-- `go func() { select ... }` on the channel of the id.
abbrev pub wait_on : TimeoutAction → Option ℕ → List Waiter
wait_on a ch =
    record { channel = ch; wait_time = a.wait_time; action_id = a.action_id; repeat = a.repeat }
    ∷ []

-- case 0
unfoldable pub add_action : ℕ → TimeoutAction → Timers → Processed
add_action now a t =
    let exist = exists (t.timeout_action_map a.action_id) in
    let t' = if exist then t else register now a t in
    if exist
    then (if a.repeat
        then processed t (wait_on a (t.del_timeout_action a.action_id)) []
        else processed t [] [])
    else processed t' (wait_on a (t'.del_timeout_action a.action_id)) []

-- case 1: the entries of the id go, and its channel is closed. What is paused goes with a delete.
unfoldable pub delete_action : ℕ → Bool → Timers → Outcome Timers
delete_action id is_delete t =
    let t1 = record t { timeout_action_map = remove t.timeout_action_map id } in
    let channel_gone : Outcome Timers = elim (t1.del_timeout_action id) [
      | none ↦ ok t1
      | some ch ↦ close ch t1 >>= λ t2.
          ok (record t2 { del_timeout_action = remove t2.del_timeout_action id })
    ] in
    channel_gone >>= λ t3. ok (record t3 {
      timer_info = remove t3.timer_info id;
      pause_timer_event =
          if is_delete then remove t3.pause_timer_event id else t3.pause_timer_event;
    })

abbrev pub only_timers : Outcome Timers → Outcome Processed
only_timers out = out >>= λ t. ok (processed t [] [])

-- case 3
unfoldable pub pause_action : ℕ → TimeoutAction → Timers → Timers
pause_action now a t = elim (t.timer_info a.action_id) [
  | none ↦ t
  | some v ↦ record t {
    pause_timer_event = put t.pause_timer_event a.action_id (record v { pause_time = now });
  }
]

-- case 4
unfoldable pub resume_action : ℕ → TimeoutAction → Timers → Processed
resume_action now a t = elim (t.pause_timer_event a.action_id) [
  | none ↦ processed t [] []
  | some info ↦
      add_action now
        (record a {
          action = info.action;
          wait_time = info.wait_time -ℤ (pos info.pause_time -ℤ pos info.start_time);
        })
        (record t { pause_timer_event = remove t.pause_timer_event a.action_id })
]

-- The action by which a repeating timer is started again: it has no function.
abbrev pub again : TimeoutAction → TimeoutAction
again a = record {
  chan_type = add;
  action_id = a.action_id;
  wait_time = a.wait_time;
  action = none;
  repeat = a.repeat;
}

-- `panics` says whether the call of a function that is not nil panics; nil does. CatchError panics
-- again where the log level is DEBUG.
module _ (debug : Bool) (panics : ℕ → Bool) where
  abbrev pub call_panics : Action → Bool
  call_panics none = true
  call_panics (some f) = panics f

  -- case 2
  unfoldable pub run_action : TimeoutAction → Timers → Outcome Processed
  run_action a t = elim (t.timeout_action_map a.action_id) [
    | none ↦ only_timers (delete_action a.action_id false t)
    | some handle ↦
        let written = if a.repeat then again a ∷ [] else [] in
        if call_panics handle
        then (if debug then panic else ok (processed t [] written))
        else (if a.repeat
            then ok (processed t [] written)
            else only_timers (delete_action a.action_id false t))
  ]

  -- The switch, at the time `now`.
  unfoldable pub process_action : ℕ → TimeoutAction → Timers → Outcome Processed
  process_action now a t = elim a.chan_type [
    | add ↦ ok (add_action now a t)
    | delete ↦ only_timers (delete_action a.action_id true t)
    | run ↦ run_action a t
    | pause ↦ only_timers (delete_action a.action_id false (pause_action now a t))
    | resume ↦ ok (resume_action now a t)
  ]

-- The actions that other goroutines write.
abbrev pub pause_timeout_action : ℕ → TimeoutAction
pause_timeout_action id = record {
  chan_type = pause;
  action_id = id;
  wait_time = pos 0;
  action = none;
  repeat = false;
}

abbrev pub resume_timeout_action : ℕ → TimeoutAction
resume_timeout_action id = record {
  chan_type = resume;
  action_id = id;
  wait_time = pos 0;
  action = none;
  repeat = false;
}

abbrev pub delete_timeout_action : ℕ → TimeoutAction
delete_timeout_action id = record {
  chan_type = delete;
  action_id = id;
  wait_time = pos 0;
  action = none;
  repeat = false;
}

abbrev pub add_timeout_action_ex : ℤ → ℕ → Action → Bool → TimeoutAction
add_timeout_action_ex wait_time id fp repeat = record {
  chan_type = add;
  action_id = id;
  wait_time = wait_time;
  action = fp;
  repeat = repeat;
}
