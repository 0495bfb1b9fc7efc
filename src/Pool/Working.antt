-- ===== src/Pool/Working.antt =====
-- A pool's sends do not wait for what does not come, and a task is run once.
use common_fw.Common.{
  occurrences, occurrences-append, ℕ, ◌+◌, ◌≤◌, ◌<◌, Bool, true, false, List, [], ◌∷◌, ◌++◌, ltb,
  if◌then◌else◌, ◌≡◌, length, length-append, refl, arith, ap, sym,
}
use common_fw.Pool.{
  Phase, absent, registers, waits, runs, Dispatch, RoutinePool, new_pool, started_routines, start,
  register, take_idle, hand_over, finish, Step, starts, becomes_idle, takes, times_out, hands_over,
  finishes, Steps, done, then_step, waiting, running, total, held,
}
use common_fw.Pool.Totals.{total-set_routine, total_nil, total_less, held-append}

pub record IsSound (p : RoutinePool) : Type 0 where
  pub outside : (i : ℕ) → p.size ≤ i → p.routines i ≡ absent
  pub unstarted : p.started ≡ false → (i : ℕ) → p.routines i ≡ absent
  pub once : (i : ℕ) → occurrences i p.idle_task_chan + held i p.dispatches ≡ waiting (p.routines i)
  pub places : length p.idle_task_chan + length p.dispatches ≡ total waiting p.size p.routines
  pub ledger :
      (t : ℕ)
      → occurrences t p.accepted ≡ occurrences t p.finished + total (running t) p.size p.routines

new_pool-IsSound : (size : ℕ) → IsSound (new_pool size)
unfolding total held
new_pool-IsSound size = record {
  outside = λ i h. refl;
  unstarted = λ e i. refl;
  once = λ i. refl;
  places = sym (total_nil waiting size (λ i. absent) (λ i. refl));
  ledger = λ t. omega (arith, total_nil (running t) size (λ i. absent) (λ i. refl));
}

registers_below : (p : RoutinePool) (i : ℕ) → IsSound p → p.routines i ≡ registers → i < p.size
registers_below p i s e = ground (arith, s.outside i)

waits_below : (p : RoutinePool) (i : ℕ) → IsSound p → p.routines i ≡ waits → i < p.size
waits_below p i s e = ground (arith, s.outside i)

runs_below : (p : RoutinePool) (i t : ℕ) → IsSound p → p.routines i ≡ runs t → i < p.size
runs_below p i t s e = ground (arith, s.outside i)

started_routines_nil :
    (f : Phase → ℕ) (size : ℕ)
    → f absent ≡ 0
    → f registers ≡ 0
    → total f size (started_routines size) ≡ 0
started_routines_nil f size a r = total_nil f size (started_routines size) (λ i. at (ltb i size))
  where
    at : (b : Bool) → f (if b then registers else absent) ≡ 0
    at true = r
    at false = a

module _ (p : RoutinePool) (s : IsSound p) where
  start_new :
      p.started ≡ false → IsSound (record p { started = true; routines = started_routines p.size })
  start_new e = record {
    outside = λ i h. ground arith;
    unstarted = λ h i. absurd (cc);
    once = λ i. ground (arith, s.once i, s.unstarted e i);
    places = omega (
      arith,
      s.places,
      total_nil waiting p.size p.routines (λ i. ground (arith, s.unstarted e i)),
      started_routines_nil waiting p.size refl refl,
    );
    ledger = λ t. omega (
      arith,
      s.ledger t,
      total_nil (running t) p.size p.routines (λ i. ground (arith, s.unstarted e i)),
      started_routines_nil (running t) p.size refl refl,
    );
  }

  start-IsSound : IsSound (start p)
  unfolding start
  start-IsSound = at p.started refl
    where
      at :
          (b : Bool)
          → p.started ≡ b
          → IsSound
              (if b then p else record p { started = true; routines = started_routines p.size })
      at true e = s
      at false e = start_new e

  register-IsSound : (i : ℕ) → p.routines i ≡ registers → IsSound (register i p)
  unfolding register
  register-IsSound i e =
      let below = registers_below p i s e in
      record {
        outside = λ j h. ground (arith, s.outside j);
        unstarted = λ h j. ground (arith, s.unstarted h j, s.unstarted h i);
        once = λ j. ground (arith, occurrences-append j p.idle_task_chan (i ∷ []), s.once j);
        places = ground (
          arith,
          length-append p.idle_task_chan (i ∷ []),
          s.places,
          total-set_routine waiting p.size i waits p.routines below,
        );
        ledger = λ t.
            ground
              (arith, s.ledger t, total-set_routine (running t) p.size i waits p.routines below);
      }

  take_idle-IsSound :
      (i : ℕ) (rest : List ℕ) (task : ℕ)
      → p.idle_task_chan ≡ i ∷ rest
      → IsSound (take_idle i rest task p)
  unfolding take_idle held
  take_idle-IsSound i rest task e = record {
    outside = s.outside;
    unstarted = s.unstarted;
    once = λ j. let c = ap (occurrences j) e in omega (arith, c, s.once j);
    places = let l = ap length e in omega (arith, l, s.places);
    ledger = s.ledger;
  }

  hand_over-IsSound :
      (before : List Dispatch) (d : Dispatch) (after : List Dispatch)
      → p.dispatches ≡ before ++ (d ∷ after)
      → p.routines d.task_chan ≡ waits
      → IsSound (hand_over d (before ++ after) p)
  unfolding hand_over held
  hand_over-IsSound before d after e w =
      let below = waits_below p d.task_chan s w in
      record {
        outside = λ j h. ground (arith, s.outside j);
        unstarted = λ h j. ground (arith, s.unstarted h j, s.unstarted h d.task_chan);
        once = λ j.
            let h = ap (held j) e in
            ground
              (arith, h, held-append j before (d ∷ after), held-append j before after, s.once j);
        places =
            let l = ap length e in
            ground (
              arith,
              l,
              length-append before (d ∷ after),
              length-append before after,
              s.places,
              total-set_routine waiting p.size d.task_chan (runs d.task) p.routines below,
            );
        ledger = λ t. ground (
          arith,
          s.ledger t,
          total-set_routine (running t) p.size d.task_chan (runs d.task) p.routines below,
        );
      }

  finish-IsSound : (i t : ℕ) → p.routines i ≡ runs t → IsSound (finish i t p)
  unfolding finish
  finish-IsSound i t e =
      let below = runs_below p i t s e in
      record {
        outside = λ j h. ground (arith, s.outside j);
        unstarted = λ h j. ground (arith, s.unstarted h j, s.unstarted h i);
        once = λ j. ground (arith, s.once j);
        places =
            ground (arith, s.places, total-set_routine waiting p.size i registers p.routines below);
        ledger = λ u.
            ground (
              arith,
              s.ledger u,
              total-set_routine (running u) p.size i registers p.routines below,
            );
      }

Step-IsSound : {p q : RoutinePool} → Step p q → IsSound p → IsSound q
Step-IsSound (starts p) s = start-IsSound p s
Step-IsSound (becomes_idle p i e room) s = register-IsSound p s i e
Step-IsSound (takes p i rest task e) s = take_idle-IsSound p s i rest task e
Step-IsSound (times_out p) s = s
Step-IsSound (hands_over p before d after e w) s = hand_over-IsSound p s before d after e w
Step-IsSound (finishes p i task e) s = finish-IsSound p s i task e

pub Steps-IsSound : {p q : RoutinePool} → Steps p q → IsSound p → IsSound q
Steps-IsSound (done p) s = s
Steps-IsSound (then_step x xs) s = Steps-IsSound xs (Step-IsSound x s)

waiting_at_most : (x : Phase) → waiting x ≤ 1
waiting_at_most absent = omega arith
waiting_at_most registers = omega arith
waiting_at_most waits = omega arith
waiting_at_most (runs t) = omega arith

counted_waits : (x : Phase) → 0 < waiting x → x ≡ waits
counted_waits absent h = ground arith
counted_waits registers h = ground arith
counted_waits waits h = refl
counted_waits (runs t) h = ground arith

-- From a new pool, however its goroutines and dispatchers go on and Start is called: a goroutine that
-- has no task finds a place in the channel of idle ones; a dispatcher that has received a goroutine's
-- channel finds that goroutine at the receive from it; a goroutine at that receive stands in the
-- channel of idle ones or is held by a dispatcher, once; and a task that DispatchTask has returned
-- nil for, as often as it has, has run or is in a goroutine, and no other task is.
pub Steps-dispatch :
    (size : ℕ) (p : RoutinePool)
    → Steps (new_pool size) p
    → ((i : ℕ) → p.routines i ≡ registers → length p.idle_task_chan < p.size)
      × ((before : List Dispatch) (d : Dispatch) (after : List Dispatch)
          → p.dispatches ≡ before ++ (d ∷ after)
          → p.routines d.task_chan ≡ waits)
      × ((i : ℕ) → p.routines i ≡ waits → occurrences i p.idle_task_chan + held i p.dispatches ≡ 1)
      × ((t : ℕ)
          → occurrences t p.accepted
            ≡ occurrences t p.finished + total (running t) p.size p.routines)
unfolding held
Steps-dispatch size p x =
    let s = Steps-IsSound x (new_pool-IsSound size) in
    (
      λ i e.
          let below = registers_below p i s e in
          let free : waiting (p.routines i) ≡ 0 = ap waiting e in
          let less = total_less waiting p.size i p.routines waiting_at_most below free in
          omega (arith, less, s.places),
      λ before d after e. counted_waits (p.routines d.task_chan) (
          let h = ap (held d.task_chan) e in
          ground (arith, h, held-append d.task_chan before (d ∷ after), s.once d.task_chan)),
      λ i e. let one : waiting (p.routines i) ≡ 1 = ap waiting e in omega (arith, one, s.once i),
      s.ledger,
    )
