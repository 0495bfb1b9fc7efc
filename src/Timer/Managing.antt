-- ===== src/Timer/Managing.antt =====
-- DelTimer never waits for a channel, and what it removes is gone.
use common_fw.Common.{
  ℕ, ◌+◌, ◌≡◌, refl, inl, inr, Bool, true, false, none, some, List, ◌==◌, if◌then◌else◌, exists,
  Option-cases, Bool-cases, arith, subst, [],
}
use common_fw.Timer.{
  TimeoutNotify, TimerManager, initialized, set_full, new_timer, del_timer, Job, JobStep, times_out,
  ticks_on, timer_closed, ticker_closed, cleans_up, found, System, JobsStep, here, there, Step,
  creates, removes, runs, Steps, done, then_step,
}
use common_fw.Timer.Removing.{IsManaged, Removed, del_timer-IsManaged, initialized-IsManaged}

set_full-IsManaged : (c : ℕ) (m : TimerManager) → IsManaged m → IsManaged (set_full c false m)
set_full-IsManaged c m i = record {
  exclusive = i.exclusive;
  own_id = i.own_id;
  is_made = i.is_made;
  is_empty = λ j t e. ground (arith, i.is_empty j t);
  own_chan = i.own_chan;
}

found_nowhere :
    (m : TimerManager) (id : ℕ) → found m id ≡ none → (m.timers id ≡ none) × (m.tickers id ≡ none)
found_nowhere m id e = elim (Option-cases (m.timers id)) [
  | inl f ↦ (f, rw f at e)
  | inr (t, f) ↦ absurd (let e' = rw f at e in cc)
]

new_timer-found :
    (is_loop : Bool) (id p : ℕ) (m : TimerManager)
    → found m id ≡ none
    → (j : ℕ)
    → found (new_timer is_loop id p m) j ≡ (
        if j == id
        then some (record { id = id; priv_data = p; close_chan = m.made })
        else found m j)
unfolding new_timer
new_timer-found is_loop id p m e j =
    let (a, b) = found_nowhere m id e in
    elim (Bool-cases (j == id)) [
      | inl h ↦
          (let same : j ≡ id = ground arith in
            let c : m.timers j ≡ none = rw same a in at is_loop h c)
      | inr h ↦ other is_loop h
    ]
  where
    at :
        (l : Bool)
        → (j == id) ≡ true
        → m.timers j ≡ none
        → found (new_timer l id p m) j ≡ (
            if j == id
            then some (record { id = id; priv_data = p; close_chan = m.made })
            else found m j)
    at true h c = rw (h, c) refl
    at false h c = rw h refl

    other :
        (l : Bool)
        → (j == id) ≡ false
        → found (new_timer l id p m) j ≡ (
            if j == id
            then some (record { id = id; priv_data = p; close_chan = m.made })
            else found m j)
    other true h = rw h refl
    other false h = rw h refl

new_timer-exclusive :
    (is_loop : Bool) (id p : ℕ) (m : TimerManager)
    → IsManaged m
    → found m id ≡ none
    → (j : ℕ) → exists ((new_timer is_loop id p m).timers j) ≡ true
    → (new_timer is_loop id p m).tickers j ≡ none
unfolding new_timer
new_timer-exclusive true id p m i e j h =
    let (a, b) = found_nowhere m id e in ground (arith, i.exclusive j, a)
new_timer-exclusive false id p m i e j h =
    let (a, b) = found_nowhere m id e in ground (arith, i.exclusive j, b)

new_timer-fields :
    (is_loop : Bool) (id p : ℕ) (m : TimerManager)
    → ((new_timer is_loop id p m).made ≡ m.made + 1)
      × ((c : ℕ) → (new_timer is_loop id p m).full c ≡ (if c == m.made then false else m.full c))
unfolding new_timer
new_timer-fields true id p m = (refl, λ c. refl)
new_timer-fields false id p m = (refl, λ c. refl)

new_timer-IsManaged :
    (is_loop : Bool) (id p : ℕ) (m : TimerManager)
    → IsManaged m
    → found m id ≡ none
    → IsManaged (new_timer is_loop id p m)
new_timer-IsManaged is_loop id p m i e =
    let f = new_timer-found is_loop id p m e in
    let (made, full) = new_timer-fields is_loop id p m in
    record {
      exclusive = new_timer-exclusive is_loop id p m i e;
      own_id = λ j t h. ground (arith, f j, i.own_id j t);
      is_made = λ j t h. ground (arith, f j, i.is_made j t, made);
      is_empty = λ j t h. ground (arith, f j, i.is_empty j t, full t.close_chan);
      own_chan = λ j k t u h g c.
          ground (arith, f j, f k, i.own_chan j k t u, i.is_made j t, i.is_made k u);
    }

del_timer_sound :
    (id : ℕ) (m m' : TimerManager) → IsManaged m → del_timer id m ≡ some m' → IsManaged m'
del_timer_sound id m m' i e =
    let (n, f, a, b) = del_timer-IsManaged id m i in
    let same : n ≡ m' = cc in subst IsManaged same a

JobStep-IsManaged :
    {m m' : TimerManager} {j k : Job} {ns : List TimeoutNotify}
    → JobStep m j m' k ns
    → IsManaged m
    → IsManaged m'
JobStep-IsManaged (times_out m t) i = i
JobStep-IsManaged (ticks_on m t) i = i
JobStep-IsManaged (timer_closed m t e) i = set_full-IsManaged t.close_chan m i
JobStep-IsManaged (ticker_closed m t e) i = set_full-IsManaged t.close_chan m i
JobStep-IsManaged (cleans_up m m' t e) i = del_timer_sound t.id m m' i e

JobsStep-IsManaged :
    {m m' : TimerManager} {js ks : List Job} → JobsStep m js m' ks → IsManaged m → IsManaged m'
JobsStep-IsManaged (here js x) i = JobStep-IsManaged x i
JobsStep-IsManaged (there j x) i = JobsStep-IsManaged x i

Step-IsManaged : {s u : System} → Step s u → IsManaged s.manager → IsManaged u.manager
Step-IsManaged (creates m js is_loop id p e) i = new_timer-IsManaged is_loop id p m i e
Step-IsManaged (removes m m' js id e) i = del_timer_sound id m m' i e
Step-IsManaged (runs m m' js ks x) i = JobsStep-IsManaged x i

Steps-IsManaged : {s u : System} → Steps s u → IsManaged s.manager → IsManaged u.manager
Steps-IsManaged (done s) i = i
Steps-IsManaged (then_step x r) i = Steps-IsManaged r (Step-IsManaged x i)

-- However calls of NewTimer, with ids that are not in use, and of DelTimer follow one another and
-- their goroutines run, from an initialized manager on: DelTimer never waits for a channel, which it
-- would do with the lock held; it returns, its id is found no more, and every other entry is as it
-- was.
pub Steps-returns :
    (u : System) (id : ℕ)
    → Steps (record { manager = initialized; jobs = [] }) u
    → (m' : TimerManager) × (del_timer id u.manager ≡ some m') × Removed id u.manager m'
Steps-returns u id r =
    let (m', e, i, d) =
      del_timer-IsManaged id u.manager (Steps-IsManaged r initialized-IsManaged) in
    (m', e, d)
