-- ===== src/Timer.antt =====
-- component/timer/timer.go: the manager of timers and tickers, and the goroutines that wait for them.
pub mod Removing
pub mod Managing
mod Examples
use common_fw.Common.{
  ℕ, suc, ◌+◌, Bool, true, false, Option, none, some, List, [], ◌∷◌, ◌==◌, ◌≡◌, if◌then◌else◌, Map,
  put, remove, exists,
}

-- A timer or a ticker; close_chan is the number of a channel with one place.
pub record Timer : Type 0 where
  pub id : ℕ
  pub priv_data : ℕ
  pub close_chan : ℕ

pub record TimeoutNotify : Type 0 where
  pub id : ℕ
  pub priv_data : ℕ

-- The tables of an initialized manager; the channels made so far, and those with a value waiting.
pub record TimerManager : Type 0 where
  pub timers : Map Timer
  pub tickers : Map Timer
  pub made : ℕ
  pub full : ℕ → Bool

abbrev pub initialized : TimerManager
initialized = record { timers = λ id. none; tickers = λ id. none; made = 0; full = λ c. false }

abbrev pub set_full : ℕ → Bool → TimerManager → TimerManager
set_full c b m = record m { full = λ j. if j == c then b else m.full j }

-- NewTimer, with the id that GenID has returned.
unfoldable pub new_timer : Bool → ℕ → ℕ → TimerManager → TimerManager
new_timer is_loop id priv_data m =
    let t : Timer = record { id = id; priv_data = priv_data; close_chan = m.made } in
    let m' = record (set_full m.made false m) { made = m.made + 1 } in
    if is_loop
    then record m' { tickers = put m.tickers id t }
    else record m' { timers = put m.timers id t }

-- `closeChan <- 0`, which waits, with the lock held, while the channel is full: `none`.
abbrev pub send_close : Timer → TimerManager → Option TimerManager
send_close t m = if m.full t.close_chan then none else some (set_full t.close_chan true m)

abbrev pub without_timer : ℕ → Option TimerManager → Option TimerManager
without_timer id none = none
without_timer id (some m) = some (record m { timers = remove m.timers id })

abbrev pub without_ticker : ℕ → Option TimerManager → Option TimerManager
without_ticker id none = none
without_ticker id (some m) = some (record m { tickers = remove m.tickers id })

unfoldable pub del_timer : ℕ → TimerManager → Option TimerManager
del_timer id m = elim (m.timers id) [
  | some t ↦ without_timer id (send_close t m)
  | none ↦ elim (m.tickers id) [ some t ↦ without_ticker id (send_close t m) | none ↦ some m ]
]

-- The goroutines: in the select of timer.job or of ticker.job, at the deferred DelTimer, or ended.
pub data Job : Type 0 where
  waits ticks : Timer → Job
  deletes : Timer → Job
  ended : Job

pub data JobStep : TimerManager → Job → TimerManager → Job → List TimeoutNotify → Type 0 where
  -- A timer's channel may hold its time although the timer has been stopped.
  times_out :
      (m : TimerManager) (t : Timer)
      → JobStep m (waits t) m (deletes t) (record { id = t.id; priv_data = t.priv_data } ∷ [])
  ticks_on :
      (m : TimerManager) (t : Timer)
      → JobStep m (ticks t) m (ticks t) (record { id = t.id; priv_data = t.priv_data } ∷ [])
  timer_closed :
      (m : TimerManager) (t : Timer)
      → m.full t.close_chan ≡ true
      → JobStep m (waits t) (set_full t.close_chan false m) (deletes t) []
  ticker_closed :
      (m : TimerManager) (t : Timer)
      → m.full t.close_chan ≡ true
      → JobStep m (ticks t) (set_full t.close_chan false m) (deletes t) []
  cleans_up :
      (m m' : TimerManager) (t : Timer)
      → del_timer t.id m ≡ some m'
      → JobStep m (deletes t) m' ended []

-- What a lookup of DelTimer finds.
abbrev pub first_of : Option Timer → Option Timer → Option Timer
first_of (some t) other = some t
first_of none other = other

abbrev pub found : TimerManager → ℕ → Option Timer
found m id = first_of (m.timers id) (m.tickers id)

pub record System : Type 0 where
  pub manager : TimerManager
  pub jobs : List Job

-- One of the goroutines moves.
pub data JobsStep : TimerManager → List Job → TimerManager → List Job → Type 0 where
  here :
      {m m' : TimerManager} {j k : Job} {ns : List TimeoutNotify} (js : List Job)
      → JobStep m j m' k ns
      → JobsStep m (j ∷ js) m' (k ∷ js)
  there :
      {m m' : TimerManager} (j : Job) {js ks : List Job}
      → JobsStep m js m' ks
      → JobsStep m (j ∷ js) m' (j ∷ ks)

pub data Step : System → System → Type 0 where
  -- GenID returns an id that is not in use, as long as fewer than 2 ^ 32 - 1 have been drawn since.
  creates :
      (m : TimerManager) (js : List Job) (is_loop : Bool) (id priv_data : ℕ)
      → found m id ≡ none
      → Step
          (record { manager = m; jobs = js })
          (record {
            manager = new_timer is_loop id priv_data m;
            jobs =
                (let t : Timer = record { id = id; priv_data = priv_data; close_chan = m.made } in
                  if is_loop then ticks t else waits t)
                ∷ js;
          })
  removes :
      (m m' : TimerManager) (js : List Job) (id : ℕ)
      → del_timer id m ≡ some m'
      → Step (record { manager = m; jobs = js }) (record { manager = m'; jobs = js })
  runs :
      (m m' : TimerManager) (js ks : List Job)
      → JobsStep m js m' ks
      → Step (record { manager = m; jobs = js }) (record { manager = m'; jobs = ks })

pub data Steps : System → System → Type 0 where
  done : (s : System) → Steps s s
  then_step : {s t u : System} → Step s t → Steps t u → Steps s u
