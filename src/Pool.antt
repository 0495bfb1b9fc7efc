-- ===== src/Pool.antt =====
-- component/routinepool/routinepool.go: the pool of goroutines, its dispatchers and their tasks.
pub mod Working
mod Totals
mod Examples
use common_fw.Common.{
  ℕ, zero, suc, ◌+◌, ◌<◌, Bool, true, false, List, [], ◌∷◌, ◌++◌, ◌==◌, ltb, if◌then◌else◌, ◌≡◌,
  length,
}

-- A goroutine of the pool: not there; at the send to idleTaskChan; at the receive from its taskChan;
-- or in a task. GoMain panics again after a task's panic, which ends the process.
pub data Phase : Type 0 where
  absent registers waits : Phase
  runs : ℕ → Phase

-- A call of DispatchTask that has received a taskChan, here its goroutine's number, and is at the send.
pub record Dispatch : Type 0 where
  pub task_chan : ℕ
  pub task : ℕ

-- The pool, its goroutines and dispatchers, the tasks that DispatchTask has returned nil for, and
-- those that have run. idleTaskChan has `size` places.
pub record RoutinePool : Type 0 where
  pub size : ℕ
  pub started : Bool
  pub idle_task_chan : List ℕ
  pub routines : ℕ → Phase
  pub dispatches : List Dispatch
  pub accepted : List ℕ
  pub finished : List ℕ

abbrev pub new_pool : ℕ → RoutinePool
new_pool size = record {
  size = size;
  started = false;
  idle_task_chan = [];
  routines = λ i. absent;
  dispatches = [];
  accepted = [];
  finished = [];
}

abbrev pub set_routine : ℕ → Phase → (ℕ → Phase) → ℕ → Phase
set_routine i x w j = if j == i then x else w j

abbrev pub started_routines : ℕ → ℕ → Phase
started_routines size i = if ltb i size then registers else absent

unfoldable pub start : RoutinePool → RoutinePool
start p = if p.started then p else record p { started = true; routines = started_routines p.size }

unfoldable pub register : ℕ → RoutinePool → RoutinePool
register i p = record p {
  idle_task_chan = p.idle_task_chan ++ (i ∷ []);
  routines = set_routine i waits p.routines;
}

unfoldable pub take_idle : ℕ → List ℕ → ℕ → RoutinePool → RoutinePool
take_idle i rest task p = record p {
  idle_task_chan = rest;
  dispatches = record { task_chan = i; task = task } ∷ p.dispatches;
}

unfoldable pub hand_over : Dispatch → List Dispatch → RoutinePool → RoutinePool
hand_over d others p = record p {
  routines = set_routine d.task_chan (runs d.task) p.routines;
  dispatches = others;
  accepted = d.task ∷ p.accepted;
}

unfoldable pub finish : ℕ → ℕ → RoutinePool → RoutinePool
finish i task p = record p {
  routines = set_routine i registers p.routines;
  finished = task ∷ p.finished;
}

pub data Step : RoutinePool → RoutinePool → Type 0 where
  starts : (p : RoutinePool) → Step p (start p)
  -- A send to idleTaskChan waits while it is full.
  becomes_idle :
      (p : RoutinePool) (i : ℕ)
      → p.routines i ≡ registers
      → length p.idle_task_chan < p.size
      → Step p (register i p)
  takes :
      (p : RoutinePool) (i : ℕ) (rest : List ℕ) (task : ℕ)
      → p.idle_task_chan ≡ i ∷ rest
      → Step p (take_idle i rest task p)
  -- After five seconds DispatchTask may return its error.
  times_out : (p : RoutinePool) → Step p p
  -- The taskChans have no buffer: a send is a receive.
  hands_over :
      (p : RoutinePool) (before : List Dispatch) (d : Dispatch) (after : List Dispatch)
      → p.dispatches ≡ before ++ (d ∷ after)
      → p.routines d.task_chan ≡ waits
      → Step p (hand_over d (before ++ after) p)
  finishes : (p : RoutinePool) (i task : ℕ) → p.routines i ≡ runs task → Step p (finish i task p)

pub data Steps : RoutinePool → RoutinePool → Type 0 where
  done : (p : RoutinePool) → Steps p p
  then_step : {p q r : RoutinePool} → Step p q → Steps q r → Steps p r

-- What is counted: goroutines at the receive, goroutines in a task, places in a list.
abbrev pub waiting : Phase → ℕ
waiting waits = 1
waiting _ = 0

abbrev pub running : ℕ → Phase → ℕ
running t (runs u) = if u == t then 1 else 0
running t _ = 0

unfoldable pub total : (Phase → ℕ) → ℕ → (ℕ → Phase) → ℕ
total f zero w = 0
total f (suc n) w = f (w n) + total f n w

unfoldable pub held : ℕ → List Dispatch → ℕ
held i [] = 0
held i (d ∷ ds) = (if d.task_chan == i then 1 else 0) + held i ds
