-- ===== src/Service/Perf.antt =====
-- framework/base/perf.go: the statistics that PerfMon gathers.
pub mod Bounds
mod Examples
use common_fw.Common.{ℕ, zero, suc, ◌+◌, ◌/◌, List, [], ◌∷◌, ltb, ◌==◌, if◌then◌else◌}

-- Times in nanoseconds.
pub record PerfData : Type 0 where
  pub msg_proc_time : ℕ
  pub task_wait_time : ℕ

-- avgMsgProcTime, maxMsgProcTime and minMsgProcTime, or the three of the waits.
pub record Times : Type 0 where
  pub avg : ℕ
  pub max : ℕ
  pub min : ℕ

pub record PerfMon : Type 0 where
  pub inmsg : ℕ
  pub msg_proc : Times
  pub task_wait : Times

-- Clear, and a new monitor.
abbrev pub cleared : PerfMon
cleared = record {
  inmsg = 0;
  msg_proc = record { avg = 0; max = 0; min = 0 };
  task_wait = record { avg = 0; max = 0; min = 0 };
}

abbrev pub first_time : ℕ → Times
first_time d = record { avg = d; max = d; min = d }

unfoldable pub next_time : ℕ → Times → Times
next_time d t = record {
  max = if ltb t.max d then d else t.max;
  min = if ltb t.max d then t.min else (if ltb d t.min then d else t.min);
  avg = (t.avg + d) / 2;
}

-- The loop's body for one datum.
unfoldable pub gather : PerfData → PerfMon → PerfMon
gather d p =
    if p.msg_proc.avg == 0
    then record {
      inmsg = p.inmsg + 1;
      msg_proc = first_time d.msg_proc_time;
      task_wait = first_time d.task_wait_time;
    }
    else record {
      inmsg = p.inmsg + 1;
      msg_proc = next_time d.msg_proc_time p.msg_proc;
      task_wait = next_time d.task_wait_time p.task_wait;
    }

unfoldable pub gather_all : List PerfData → PerfMon → PerfMon
gather_all [] p = p
gather_all (d ∷ ds) p = gather_all ds (gather d p)
