-- ===== src/Service/Timeouts/Lifecycle.antt =====
-- What deleting, pausing and resuming a timeout action does, and how a deleted one comes back.
use common_fw.Common.{
  ℕ, ◌≡◌, ◌≢◌, refl, Bool, true, false, none, some, List, [], ◌∷◌, ◌==◌, ℤ, pos, ◌-ℤ◌, put, remove,
  ok, panic, arith,
}
use common_fw.Service.Timeouts.{
  delete, TimeoutAction, TimerInfo, Timers, Waiter, Processed, processed, register, wait_on,
  pause_timeout_action, resume_timeout_action, delete_timeout_action, add_action, pause_action,
  resume_action, again, run_action, process_action,
}
use common_fw.Service.Timeouts.Running.{expired, Steps, done, then_step, processes}
use common_fw.Service.Timeouts.Keeping.{with_paused-IsSound}
use common_fw.Service.Timeouts.Deleting.{IsSound, delete_action-Deleted}

-- Nothing is kept of the id, and all is kept of the others.
pub record Forgets (id : ℕ) (t t' : Timers) : Type 0 where
  pub no_action : t'.timeout_action_map id ≡ none
  pub no_channel : t'.del_timeout_action id ≡ none
  pub no_info : t'.timer_info id ≡ none
  pub not_paused : t'.pause_timer_event id ≡ none
  pub other_actions : (j : ℕ) → j ≢ id → t'.timeout_action_map j ≡ t.timeout_action_map j
  pub other_channels : (j : ℕ) → j ≢ id → t'.del_timeout_action j ≡ t.del_timeout_action j
  pub other_paused : (j : ℕ) → j ≢ id → t'.pause_timer_event j ≡ t.pause_timer_event j

module _ (debug : Bool) (panics : ℕ → Bool) (now : ℕ) (t : Timers) (s : IsSound t) where
  -- A delete of an id, registered, paused or unknown, forgets it and keeps all else.
  pub process_action-Forgets :
      (a : TimeoutAction)
      → a.chan_type ≡ delete
      → (t' : Timers) × (process_action debug panics now a t ≡ ok (processed t' [] []))
        × Forgets a.action_id t t'
  unfolding process_action
  process_action-Forgets a e =
      let (t', q, d) = delete_action-Deleted a.action_id true t s in
      let gone : (a.action_id == a.action_id) ≡ true = ground arith in
      (
        t',
        rw (e, process_action) (rw q refl),
        record {
          no_action = rw d.actions (rw gone refl);
          no_channel = rw (d.channels a.action_id) (rw gone refl);
          no_info = rw d.infos (rw gone refl);
          not_paused = rw d.paused (rw gone refl);
          other_actions = λ j n. rw d.actions (ground arith);
          other_channels = λ j n. rw (d.channels j) (ground arith);
          other_paused = λ j n. rw d.paused (ground arith);
        },
      )

-- A timer that was paused and resumed.
pub record Resumed (id now later : ℕ) (info : TimerInfo) (p : Processed) : Type 0 where
  pub left : ℤ
  pub time_left : left ≡ info.wait_time -ℤ (pos now -ℤ pos info.start_time)
  pub back : p.timers.timeout_action_map id ≡ some info.action
  pub not_paused : p.timers.pause_timer_event id ≡ none
  pub waits :
      (ch : ℕ) × (p.timers.del_timeout_action id ≡ some ch)
      × (p.started
          ≡ record { channel = some ch; wait_time = left; action_id = id; repeat = false } ∷ [])

-- Pausing a registered timer and resuming it later registers it again, with its function and the
-- time that was left when it was paused. It does not repeat, even if it did before.
pub resume-pause :
    (debug : Bool) (panics : ℕ → Bool) (t : Timers) (id now later : ℕ) (info : TimerInfo)
    → IsSound t
    → t.timer_info id ≡ some info
    → (t' : Timers) × (process_action debug panics now (pause_timeout_action id) t
        ≡ ok (processed t' [] []))
      × (t'.timeout_action_map id ≡ none)
      × (p : Processed) × (process_action debug panics later (resume_timeout_action id) t' ≡ ok p)
      × Resumed id now later info p
unfolding process_action pause_action resume_action add_action
resume-pause debug panics t id now later info s e =
    let again_left : TimeoutAction = record (resume_timeout_action id) {
      action = info.action;
      wait_time = info.wait_time -ℤ (pos now -ℤ pos info.start_time);
    } in
    let paused = record t {
      pause_timer_event = put t.pause_timer_event id (record info { pause_time = now });
    } in
    let (t', q, d) = delete_action-Deleted id false paused (with_paused-IsSound t _ s) in
    let gone : (id == id) ≡ true = ground arith in
    let way : pause_action now (pause_timeout_action id) t ≡ paused = rw (e, pause_action) refl in
    let empty : t'.timeout_action_map id ≡ none = rw d.actions (rw gone refl) in
    let kept : t'.pause_timer_event id ≡ some (record info { pause_time = now }) =
      rw d.paused (rw gone refl) in
    (
      t',
      rw way (rw q refl),
      empty,
      processed
          (register later again_left
            (record t' { pause_timer_event = remove t'.pause_timer_event id }))
          (wait_on again_left (some t'.made)) [],
      rw (kept, resume_action) (simp (empty, gone)),
      record {
        left = again_left.wait_time;
        time_left = refl;
        back = rw gone refl;
        not_paused = rw gone refl;
        waits = (t'.made, rw gone refl, refl);
      },
    )

run_nil :
    (panics : ℕ → Bool) (now : ℕ) (w : Waiter) (t : Timers)
    → t.timeout_action_map w.action_id ≡ some none
    → process_action true panics now (expired w) t ≡ panic
unfolding process_action run_action
run_nil panics now w t e = rw (e, run_action) refl

-- The bug: a repeating timer that is deleted between its expiry and its new start is registered
-- again, without a function. Whenever MainLoop processes the expiry, it writes an action that adds the
-- timer; whenever it processes a delete of the timer then, nothing is registered; and whenever it
-- processes the written action after that, the timer is registered without a function, and a
-- goroutine waits for it. Where the log level is DEBUG, what that goroutine writes at its expiry ends
-- the program. The service takes these steps if the delete was sent behind the expiry.
pub Steps-revive :
    (debug : Bool) (panics : ℕ → Bool) (t : Timers) (w : Waiter) (f : ℕ) (rest : List TimeoutAction)
    (ws : List Waiter) (now now' now'' : ℕ)
    → IsSound t
    → t.timeout_action_map w.action_id ≡ some (some f)
    → panics f ≡ false
    → w.repeat ≡ true
    → (p p' p'' : Processed) × (a : TimeoutAction) × (w' : Waiter) × (process_action debug panics
          now
          (expired w)
          t
        ≡ ok p)
      × (p.written ≡ a ∷ [])
      × (process_action debug panics now' (delete_timeout_action w.action_id) p.timers ≡ ok p')
      × (p'.timers.timeout_action_map w.action_id ≡ none)
      × (process_action debug panics now'' a p'.timers ≡ ok p'')
      × (p''.timers.timeout_action_map w.action_id ≡ some none)
      × (p''.started ≡ w' ∷ [])
      × ((later : ℕ) → process_action true panics later (expired w') p''.timers ≡ panic)
      × Steps debug panics
          (record {
            timers = t;
            sent = expired w ∷ delete_timeout_action w.action_id ∷ rest;
            waiters = ws;
          })
          (record { timers = p''.timers; sent = rest; waiters = w' ∷ ws })
unfolding process_action run_action add_action
Steps-revive debug panics t w f rest ws now now' now'' s e safe r =
    let id = w.action_id in
    let gone : (id == id) ≡ true = ground arith in
    let (t', q, d) = delete_action-Deleted id true t s in
    let empty : t'.timeout_action_map id ≡ none = rw d.actions (rw gone refl) in
    let start = again (expired w) in
    let revived = register now'' start t' in
    let w' : Waiter = record {
      channel = some t'.made;
      wait_time = w.wait_time;
      action_id = id;
      repeat = w.repeat;
    } in
    let ran : process_action debug panics now (expired w) t ≡ ok (processed t [] (start ∷ [])) =
      rw (e, run_action) (simp (safe, r)) in
    let deleted : process_action debug panics now' (delete_timeout_action id) t
        ≡ ok (processed t' [] []) =
      rw q refl in
    let added : process_action debug panics now'' start t' ≡ ok (processed revived (w' ∷ []) []) =
      simp (empty, gone) in
    (
      processed t [] (start ∷ []),
      processed t' [] [],
      processed revived (w' ∷ []) [],
      start,
      w',
      ran,
      refl,
      deleted,
      empty,
      added,
      rw gone refl,
      refl,
      λ later. run_nil panics later w' revived (rw gone refl),
      then_step
          (then_step
            (then_step done
              (processes now (expired w) t [] (delete_timeout_action id ∷ rest) ws _ refl ran))
            (processes now' (delete_timeout_action id) t (start ∷ []) rest ws _ refl deleted))
          (processes now'' start t' [] rest ws _ refl added),
    )
