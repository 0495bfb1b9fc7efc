-- ===== src/Service/Timeouts/Keeping.antt =====
-- What the timers keep, whatever actions are processed and in whatever order they arrive.
use common_fw.Common.{
  ℕ, ◌≡◌, refl, sym, subst, ◌∙◌, ◌⊎◌, inl, inr, Bool, true, false, some, [], ◌∷◌, if◌then◌else◌,
  Map, exists, Outcome, ok, panic, arith, Bool-cases, Option-cases,
}
use common_fw.Service.Timeouts.{
  ChanType, add, delete, run, pause, resume, Action, TimeoutAction, TimerInfo, Timers, Processed,
  processed, register, add_action, delete_action, only_timers, pause_action, resume_action, again,
  call_panics, run_action, process_action,
}
use common_fw.Service.Timeouts.Running.{
  System, Step, Steps, done, then_step, requests, processes, expires, cancelled,
}
use common_fw.Service.Timeouts.Deleting.{Deleted-IsSound, IsSound, delete_action-Deleted}

pub register-IsSound :
    (now : ℕ) (a : TimeoutAction) (t : Timers)
    → IsSound t
    → exists (t.timeout_action_map a.action_id) ≡ false
    → IsSound (register now a t)
register-IsSound now a t s e = record {
  has_channel = λ j. ground (arith, s.has_channel j);
  has_info = λ j. ground (arith, s.has_info j);
  is_open = λ j ch h. ground (arith, s.is_open j ch);
  own = λ i j ch h k. ground (arith, s.own i j ch, s.is_open i ch, s.is_open j ch);
  same_action = λ j info h. ground (arith, s.same_action j info);
}

add_action-IsSound :
    (now : ℕ) (a : TimeoutAction) (t : Timers) → IsSound t → IsSound (add_action now a t).timers
unfolding add_action
add_action-IsSound now a t s = elim (Bool-cases (exists (t.timeout_action_map a.action_id))) [
  | inl e ↦ elim (Bool-cases a.repeat) [ inl r ↦ simp (e, r) s | inr r ↦ simp (e, r) s ]
  | inr e ↦ simp e (register-IsSound now a t s e)
]

pub with_paused-IsSound :
    (t : Timers) (m : Map TimerInfo) → IsSound t → IsSound (record t { pause_timer_event = m })
with_paused-IsSound t m s = record {
  has_channel = s.has_channel;
  has_info = s.has_info;
  is_open = s.is_open;
  own = s.own;
  same_action = s.same_action;
}

pause_action-IsSound :
    (now : ℕ) (a : TimeoutAction) (t : Timers) → IsSound t → IsSound (pause_action now a t)
unfolding pause_action
pause_action-IsSound now a t s = elim (Option-cases (t.timer_info a.action_id)) [
  | inl e ↦ rw (e, pause_action) s
  | inr (v, e) ↦ rw (e, pause_action) (with_paused-IsSound t _ s)
]

resume_action-IsSound :
    (now : ℕ) (a : TimeoutAction) (t : Timers) → IsSound t → IsSound (resume_action now a t).timers
unfolding resume_action
resume_action-IsSound now a t s = elim (Option-cases (t.pause_timer_event a.action_id)) [
  | inl e ↦ rw (e, resume_action) s
  | inr (info, e) ↦ rw (e, resume_action) (add_action-IsSound now _ _ (with_paused-IsSound t _ s))
]

-- An action ends in sound timers, or panics.
abbrev pub Keeps : Outcome Processed → Type 0
Keeps out = (p : Processed) × (out ≡ ok p) × IsSound p.timers

delete_action-Keeps :
    (id : ℕ) (is_delete : Bool) (t : Timers)
    → IsSound t
    → Keeps (only_timers (delete_action id is_delete t))
delete_action-Keeps id is_delete t s =
    let (t', e, d) = delete_action-Deleted id is_delete t s in
    (processed t' [] [], rw e refl, Deleted-IsSound id is_delete t t' s d)

ok_injective : (p q : Processed) → ◌≡◌ {A = Outcome Processed} (ok p) (ok q) → p ≡ q
ok_injective p q e = cc

module _ (debug : Bool) (panics : ℕ → Bool) where
  -- The panic of a function is passed on where the log level is DEBUG.
  abbrev pub IsCallerPanic : TimeoutAction → Timers → Type 0
  IsCallerPanic a t =
      (debug ≡ true)
      × (a.chan_type ≡ run)
      × (f : Action) × (t.timeout_action_map a.action_id ≡ some f)
      × (call_panics debug panics f ≡ true)

  run_action-Keeps :
      (a : TimeoutAction) (t : Timers)
      → IsSound t
      → a.chan_type ≡ run
      → Keeps (run_action debug panics a t)
        ⊎ ((run_action debug panics a t ≡ panic) × IsCallerPanic a t)
  unfolding run_action
  run_action-Keeps a t s k = elim (Option-cases (t.timeout_action_map a.action_id)) [
    | inl e ↦
        let way : run_action debug panics a t ≡ only_timers (delete_action a.action_id false t) =
          rw (e, run_action) refl in
        rw way (inl (delete_action-Keeps a.action_id false t s))
    | inr (f, e) ↦ elim (Bool-cases (call_panics debug panics f)) [
      | inl p ↦ elim (Bool-cases debug) [
        | inl d ↦
            let way : run_action debug panics a t ≡ panic = rw (e, run_action) (simp (p, d)) in
            inr (way, (d, k, f, e, p))
        | inr d ↦
            let way : run_action debug panics a t
                ≡ ok (processed t [] (if a.repeat then again a ∷ [] else [])) =
              rw (e, run_action) (simp (p, d)) in
            inl (_, way, s)
      ]
      | inr p ↦ elim (Bool-cases a.repeat) [
        | inl r ↦
            let way : run_action debug panics a t ≡ ok (processed t [] (again a ∷ [])) =
              rw (e, run_action) (simp (p, r)) in
            inl (_, way, s)
        | inr r ↦
            let way : run_action debug panics a t
                ≡ only_timers (delete_action a.action_id false t) =
              rw (e, run_action) (simp (p, r)) in
            rw way (inl (delete_action-Keeps a.action_id false t s))
      ]
    ]
  ]

  -- One action of the loop keeps the timers sound; it panics only with a function that it calls.
  pub process_action-Keeps :
      (now : ℕ) (a : TimeoutAction) (t : Timers)
      → IsSound t
      → Keeps (process_action debug panics now a t)
        ⊎ ((process_action debug panics now a t ≡ panic) × IsCallerPanic a t)
  unfolding process_action run_action
  process_action-Keeps now a t s = from a.chan_type refl
    where
      from :
          (c : ChanType)
          → a.chan_type ≡ c
          → Keeps (process_action debug panics now a t)
            ⊎ ((process_action debug panics now a t ≡ panic) × IsCallerPanic a t)
      from add e = rw (e, process_action) (inl (_, refl, add_action-IsSound now a t s))
      from delete e = rw (e, process_action) (inl (delete_action-Keeps a.action_id true t s))
      from run e =
          let way : process_action debug panics now a t ≡ run_action debug panics a t =
            rw (e, process_action) refl in
          rw way (run_action-Keeps a t s e)
      from pause e =
          rw (e, process_action)
            (inl (delete_action-Keeps a.action_id false _ (pause_action-IsSound now a t s)))
      from resume e = rw (e, process_action) (inl (_, refl, resume_action-IsSound now a t s))

  Step-IsSound : {s u : System} → Step debug panics s u → IsSound s.timers → IsSound u.timers
  Step-IsSound (requests t sent ws a) h = h
  Step-IsSound (processes now a t before behind ws p e q) h =
      elim (process_action-Keeps now a t h) [
        | inl (p', e', k) ↦
            subst (λ (x : Processed). IsSound x.timers) (ok_injective p' p (sym e' ∙ q)) k
        | inr (e', k) ↦ absurd (cc)
      ]
  Step-IsSound (expires t sent w before behind e) h = h
  Step-IsSound (cancelled t sent w ch before behind e f g) h = h

  -- Whatever is requested, in whatever order the actions are processed and the goroutines' times
  -- pass, sound timers stay sound: an id is in all three maps or in none, its channel is its own and
  -- open, and what is kept of it names its function.
  pub Steps-IsSound : {s u : System} → Steps debug panics s u → IsSound s.timers → IsSound u.timers
  Steps-IsSound done h = h
  Steps-IsSound (then_step r st) h = Step-IsSound st (Steps-IsSound r h)
