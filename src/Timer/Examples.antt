-- ===== src/Timer/Examples.antt =====
-- A timer and a ticker.
use common_fw.Common.{◌≡◌, refl, true, false, some, []}
use common_fw.Timer.{
  TimerManager, initialized, new_timer, del_timer, System, Steps, creates, done, then_step,
}
use common_fw.Timer.Managing.{Steps-returns}
use common_fw.Timer.Removing.{Removed}

abbrev with_ticker : TimerManager
with_ticker = new_timer true 1 7 initialized

abbrev with_both : TimerManager
with_both = new_timer false 2 8 with_ticker

both :
    (u : System) × Steps (record { manager = initialized; jobs = [] }) u × (u.manager ≡ with_both)
unfolding new_timer
both = (
  _,
  then_step (creates initialized [] true 1 7 refl)
      (then_step (creates with_ticker _ false 2 8 refl) (done _)),
  refl,
)

Steps-returns_example :
    (m' : TimerManager) × (del_timer 1 both.0.manager ≡ some m') × Removed 1 both.0.manager m'
Steps-returns_example = Steps-returns both.0 1 both.1
