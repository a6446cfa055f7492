-- ===== src/Data.antt =====
-- The value types: utils/include/utils/types.hpp, task_orchestrator/include/task_orchestrator/data
-- (phase.hpp, process.hpp) with task_orchestrator/src/data/process.cpp, and the interface to
-- `double`. Times, durations, priorities and `int` values are integers without a bound.
use task_orchestrator.Base.{ℤ, ltb_ℤ, leb_ℤ, String, Bool, ◌&&◌, List, ◌∷◌, Option}

abbrev pub Time : Type 0
Time = ℤ

abbrev pub Duration : Type 0
Duration = ℤ

-- What the program does with `double`: the model uses no law of it.
pub record Doubles (D : Type 0) : Type 0 where
  pub lt : D → D → Bool
  pub eq : D → D → Bool
  pub mul : D → D → D
  pub div : D → D → D
  pub of_int : ℤ → D

pub record AvailabilityWindow : Type 0 where
  pub start : Time
  pub end : Time

-- `AvailabilityWindow::contains`.
unfoldable pub window_contains : AvailabilityWindow → Time → Bool
window_contains w t = leb_ℤ w.start t && ltb_ℤ t w.end

unfoldable pub overlaps : AvailabilityWindow → Time → Time → Bool
overlaps w range_start range_end = ltb_ℤ range_start w.end && ltb_ℤ w.start range_end

pub record Phase : Type 0 where
  pub id : String
  pub name : String
  pub process_ids : List String
  pub dependency_phase_ids : List String

pub record Process (D : Type 0) : Type 0 where
  pub id : String
  pub phase_id : String
  pub sub_process_ids : List String
  pub estimated_duration : Duration
  pub priority : ℤ
  pub deadline : Option Time
  pub release_time : Time
  pub latest_start_time : Option Time
  pub demand : ℤ
  pub mandatory : Bool
  pub preemptible : Bool
  pub allowed_actor_types : List String
  pub allowed_actor_ids : List String
  pub preferred_actor_ids : List String
  pub required_capabilities : List String
  pub dependency_task_ids : List String
  pub mutually_exclusive_task_ids : List String
  pub actor_distances : List (String × Time)
  pub tardiness_cost_per_unit : D
  pub early_start_bonus : D

-- `Process::task_ids`: the process itself is a task, and so are its sub-processes.
unfoldable pub task_ids : {D : Type 0} → Process D → List String
task_ids p = p.id ∷ p.sub_process_ids
