-- ===== src/Strategy.antt =====
-- task_orchestrator/include/task_orchestrator/strategy: the order in which pending tasks are
-- considered (scheduling_strategy.hpp), and the four orders that the library has.
pub mod Edf
use mathlib.Core.List.{Perm}
use task_orchestrator.Base.{
  ℕ, ℤ, eqb_ℤ, ltb_ℤ, String, Bool, true, false, not, ◌==◌, List, Option, none, some, lt_id,
  sort_by, sort_by-perm, is_some, if◌then◌else◌,
}
use task_orchestrator.Data.{Time, Duration}

pub record TaskInfo : Type 0 where
  pub id : String
  pub phase_id : String
  pub duration : Duration
  pub priority : ℤ
  pub release_time : Time
  pub deadline : Option Time
  pub latest_start_time : Option Time
  pub demand : ℤ
  pub dependency_count : ℕ

-- "Sort tasks in the order the scheduler should consider them": the tasks stay the same.
pub record SchedulingStrategy : Type 0 where
  pub order_tasks : List TaskInfo → List TaskInfo
  pub keeps : (tasks : List TaskInfo) → Perm (order_tasks tasks) tasks

-- The last two tests of `EDFStrategy`.
abbrev pub deadline_before : Option Time → Option Time → Bool
deadline_before none none = false
deadline_before none (some e) = false
deadline_before (some d) none = true
deadline_before (some d) (some e) = ltb_ℤ d e

unfoldable pub edf_before : TaskInfo → TaskInfo → Bool
edf_before a b =
    if not (eqb_ℤ a.priority b.priority)
    then ltb_ℤ b.priority a.priority
    else deadline_before a.deadline b.deadline

unfoldable pub fifo_before : TaskInfo → TaskInfo → Bool
fifo_before a b =
    if not (a.phase_id == b.phase_id) then lt_id a.phase_id b.phase_id else lt_id a.id b.id

unfoldable pub priority_before : TaskInfo → TaskInfo → Bool
priority_before a b =
    if not (eqb_ℤ a.priority b.priority) then ltb_ℤ b.priority a.priority else lt_id a.id b.id

unfoldable pub sjf_before : TaskInfo → TaskInfo → Bool
sjf_before a b =
    if not (eqb_ℤ a.duration b.duration)
    then ltb_ℤ a.duration b.duration
    else if not (eqb_ℤ a.priority b.priority)
    then ltb_ℤ b.priority a.priority
    else lt_id a.id b.id

abbrev pub sorting : (TaskInfo → TaskInfo → Bool) → SchedulingStrategy
sorting before = record { order_tasks = sort_by before; keeps = sort_by-perm before }

unfoldable pub edf_strategy : SchedulingStrategy
edf_strategy = sorting edf_before

unfoldable pub fifo_strategy : SchedulingStrategy
fifo_strategy = sorting fifo_before

unfoldable pub priority_only_strategy : SchedulingStrategy
priority_only_strategy = sorting priority_before

unfoldable pub sjf_strategy : SchedulingStrategy
sjf_strategy = sorting sjf_before
