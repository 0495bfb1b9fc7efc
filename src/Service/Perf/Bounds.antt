-- ===== src/Service/Perf/Bounds.antt =====
-- The average lies between the least and the greatest time; the greatest time may be forgotten.
use common_fw.Common.{
  ℕ, zero, suc, ◌+◌, ◌/◌, ◌^◌, ◌≤◌, ◌<◌, ◌≡◌, inl, inr, List, [], ◌∷◌, ◌==◌, Bool-cases, length,
  replicate, arith,
}
use common_fw.Service.Perf.{
  PerfData, Times, PerfMon, cleared, first_time, next_time, gather, gather_all,
}

pub record IsOrdered (t : Times) : Type 0 where
  pub low : t.min ≤ t.avg
  pub high : t.avg ≤ t.max

abbrev pub AreOrdered : PerfMon → Type 0
AreOrdered p = IsOrdered p.msg_proc × IsOrdered p.task_wait

next_time-IsOrdered : (d : ℕ) (t : Times) → IsOrdered t → IsOrdered (next_time d t)
unfolding next_time
next_time-IsOrdered d t i = ground arith

gather-AreOrdered : (d : PerfData) (p : PerfMon) → AreOrdered p → AreOrdered (gather d p)
unfolding gather
gather-AreOrdered d p i = elim (Bool-cases (p.msg_proc.avg == 0)) [
  | inl e ↦ simp e (ground arith)
  | inr e ↦ simp e (
    next_time-IsOrdered d.msg_proc_time p.msg_proc i.0,
    next_time-IsOrdered d.task_wait_time p.task_wait i.1,
  )
]

gather-counts : (d : PerfData) (p : PerfMon) → (gather d p).inmsg ≡ p.inmsg + 1
unfolding gather
gather-counts d p = elim (Bool-cases (p.msg_proc.avg == 0)) [ inl e ↦ simp e | inr e ↦ simp e ]

-- Whatever data are gathered, in both statistics the average stays between the least and the greatest
-- time, where it was so before, as it is in a cleared monitor; and each datum is counted.
pub gather_all-AreOrdered :
    (ds : List PerfData) (p : PerfMon)
    → AreOrdered p
    → AreOrdered (gather_all ds p) × ((gather_all ds p).inmsg ≡ p.inmsg + length ds)
unfolding gather_all
gather_all-AreOrdered [] p i = (i, omega arith)
gather_all-AreOrdered (d ∷ ds) p i =
    let (a, b) = gather_all-AreOrdered ds (gather d p) (gather-AreOrdered d p i) in
    (a, omega (arith, b, gather-counts d p))

-- Messages whose processing took no measurable time.
abbrev pub at_once : PerfData
at_once = record { msg_proc_time = 0; task_wait_time = 0 }

gather-at_once : (p : PerfMon) → (gather at_once p).msg_proc.avg ≡ p.msg_proc.avg / 2
unfolding gather next_time
gather-at_once p = elim (Bool-cases (p.msg_proc.avg == 0)) [
  | inl e ↦ simp e (ground arith)
  | inr e ↦ simp e (ground arith)
]

gather_all-at_once :
    (n : ℕ) (p : PerfMon)
    → p.msg_proc.avg < 2 ^ n
    → (gather_all (replicate n at_once) p).msg_proc.avg ≡ 0
unfolding gather_all
gather_all-at_once zero p h = omega arith
gather_all-at_once (suc n) p h =
    gather_all-at_once n (gather at_once p) (omega (arith, gather-at_once p))

-- The bug: after enough data with the time 0 the average is 0, and the next datum replaces the least
-- and the greatest time, although the data that they came from were not cleared.
pub gather_all-forgets :
    (first d : PerfData) (n : ℕ)
    → first.msg_proc_time < 2 ^ n
    → (gather d (gather_all (replicate n at_once) (gather first cleared))).msg_proc
      ≡ first_time d.msg_proc_time
unfolding gather
gather_all-forgets first d n h =
    let zero_avg = gather_all-at_once n (gather first cleared) h in simp zero_avg
