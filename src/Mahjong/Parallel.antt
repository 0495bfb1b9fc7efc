-- ===== src/Mahjong/Parallel.antt =====
-- component/mjana/mjana.go: goroutines that search side by side and share the named result isHu
-- (Ana3NP2WildMenCardsOptParallel, ExhaustionAllZeroWild3NP2CardsOptParallel,
-- Exhaustion4Wild3NP2CardsOptParallel).
pub mod Sound
pub mod Ending
pub mod Lost
pub mod Search
pub mod Answers
pub mod Wins
mod Examples
use common_fw.Common.{
  ℕ, suc, ◌-◌, ◌<◌, Bool, true, false, List, [], ◌∷◌, ◌++◌, leb, ◌==◌, if◌then◌else◌, length, map,
}

-- A goroutine, by the answers that its loop has still to compute: `isHu = f(...)` is next, or the
-- test `if isHu { break }`, or `resChan <- isHu`. A goroutine without a loop has one answer; it has no
-- test, and the test of a last answer leads to the same send whichever way it goes.
pub data Worker : Type 0 where
  evaluates : List Bool → Worker
  tests : List Bool → Worker
  sends : Worker

-- The function that started them: at `isHu = <-resChan` with this many branches left, at
-- `if isHu`, at `return`, or returned.
pub data Caller : Type 0 where
  waits : ℕ → Caller
  received : ℕ → Caller
  returns : Caller
  returned : Bool → Caller

pub record Race : Type 0 where
  pub is_hu : Bool
  pub workers : List Worker
  pub res_chan : List Bool
  pub caller : Caller

-- What one goroutine does next, with isHu before and after.
pub data Work : Bool → Worker → Bool → Worker → Type 0 where
  writes : (h b : Bool) (rest : List Bool) → Work h (evaluates (b ∷ rest)) b (tests rest)
  breaks : (rest : List Bool) → Work true (tests rest) true sends
  continues : (rest : List Bool) → Work false (tests rest) false (evaluates rest)
  ends : (h : Bool) → Work h (evaluates []) h sends

-- One of the goroutines does so.
pub data Works : Bool → List Worker → Bool → List Worker → Type 0 where
  here : {h k : Bool} {w v : Worker} (ws : List Worker) → Work h w k v → Works h (w ∷ ws) k (v ∷ ws)
  there :
      {h k : Bool} (w : Worker) {ws vs : List Worker}
      → Works h ws k vs
      → Works h (w ∷ ws) k (w ∷ vs)

-- A goroutine that has sent ends.
pub data Leaves : List Worker → List Worker → Type 0 where
  leaves : (ws : List Worker) → Leaves (sends ∷ ws) ws
  passes : (w : Worker) {ws vs : List Worker} → Leaves ws vs → Leaves (w ∷ ws) (w ∷ vs)

-- `branches--; if branches <= 0 { break }`
abbrev pub next : ℕ → Caller
next branches = if leb (branches - 1) 0 then returns else waits (branches - 1)

abbrev pub start : List (List Bool) → Race
start branches = record {
  is_hu = false;
  workers = map evaluates branches;
  res_chan = [];
  caller = if length branches == 0 then returns else waits (length branches);
}

module _ (capacity : ℕ) where
  pub data Step : Race → Race → Type 0 where
    works :
        {h k : Bool} {ws vs : List Worker} (chan : List Bool) (c : Caller)
        → Works h ws k vs
        → Step
            (record { is_hu = h; workers = ws; res_chan = chan; caller = c })
            (record { is_hu = k; workers = vs; res_chan = chan; caller = c })
    -- A send to a full channel waits.
    sent :
        (h : Bool) {ws vs : List Worker} (chan : List Bool) (c : Caller)
        → Leaves ws vs
        → length chan < capacity
        → Step
            (record { is_hu = h; workers = ws; res_chan = chan; caller = c })
            (record { is_hu = h; workers = vs; res_chan = chan ++ (h ∷ []); caller = c })
    receives :
        (h v : Bool) (ws : List Worker) (chan : List Bool) (n : ℕ)
        → Step
            (record { is_hu = h; workers = ws; res_chan = v ∷ chan; caller = waits n })
            (record { is_hu = v; workers = ws; res_chan = chan; caller = received n })
    wins :
        (ws : List Worker) (chan : List Bool) (n : ℕ)
        → Step
            (record { is_hu = true; workers = ws; res_chan = chan; caller = received n })
            (record { is_hu = true; workers = ws; res_chan = chan; caller = returns })
    misses :
        (ws : List Worker) (chan : List Bool) (n : ℕ)
        → Step
            (record { is_hu = false; workers = ws; res_chan = chan; caller = received n })
            (record { is_hu = false; workers = ws; res_chan = chan; caller = next n })
    gives :
        (h : Bool) (ws : List Worker) (chan : List Bool)
        → Step
            (record { is_hu = h; workers = ws; res_chan = chan; caller = returns })
            (record { is_hu = h; workers = ws; res_chan = chan; caller = returned h })

  pub data Steps : Race → Race → Type 0 where
    done : (s : Race) → Steps s s
    then_step : {s t u : Race} → Step s t → Steps t u → Steps s u

  abbrev pub number_of : {s u : Race} → Steps s u → ℕ
  number_of (done s) = 0
  number_of (then_step st r) = suc (number_of r)
