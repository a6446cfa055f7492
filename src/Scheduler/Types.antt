-- ===== src/Scheduler/Types.antt =====
-- The types of scheduler.hpp and scheduler.cpp, and the actor registry.
use task_orchestrator.Base.{
  ℕ, ℤ, pos, String, Bool, List, [], ◌∷◌, map, Option, lookup, assign, lt_id, sort_by,
}
use task_orchestrator.Data.{Time, Process}
use task_orchestrator.Actor.{Actor}
use task_orchestrator.Strategy.{TaskInfo}

pub data ActorRankingCriterion : Type 0 where
  earliest_feasible_start earliest_feasible_completion distance_to_work_criterion
        execution_cost_criterion uptime_utilisation least_loaded preferred_actor_criterion :
      ActorRankingCriterion

pub record ActorRankingProfile : Type 0 where
  pub criteria : List ActorRankingCriterion

unfoldable pub default_profile : ActorRankingProfile
default_profile = record {
  criteria =
      earliest_feasible_completion ∷ preferred_actor_criterion ∷ distance_to_work_criterion
      ∷ least_loaded ∷ [];
}

pub record Assignment : Type 0 where
  pub task_id : String
  pub actor_id : String
  pub start_time : Time

pub record WorkflowState : Type 0 where
  pub completed_phases : List String
  pub assigned_tasks : List String
  pub completed_tasks : List String
  pub actor_load : List (String × ℤ)
  pub unavailable_actors : List String
  pub resumable_tasks : List String
  pub unresumable_tasks : List String
  pub task_actor_distance : List (String × List (String × Time))
  pub task_release_time : List (String × Time)
  pub task_allowed_actors : List (String × List String)
  pub task_preferred_actors : List (String × List String)
  pub task_actor : List (String × String)
  pub task_planned_start_time : List (String × Time)
  pub task_planned_end_time : List (String × Time)
  pub task_actual_completion_time : List (String × Time)

-- `WorkflowState{}`.
unfoldable pub initial_workflow_state : WorkflowState
initial_workflow_state = record {
  completed_phases = [];
  assigned_tasks = [];
  completed_tasks = [];
  actor_load = [];
  unavailable_actors = [];
  resumable_tasks = [];
  unresumable_tasks = [];
  task_actor_distance = [];
  task_release_time = [];
  task_allowed_actors = [];
  task_preferred_actors = [];
  task_actor = [];
  task_planned_start_time = [];
  task_planned_end_time = [];
  task_actual_completion_time = [];
}

pub record ScheduleResult : Type 0 where
  pub ok : Bool
  pub assignments : List Assignment
  pub ranking_decision_criterion_index : List (String × ℕ)
  pub error_message : String

pub record ActorRegistry (D : Type 0) : Type 0 where
  pub actors : List (String × Actor D)

module _ {D : Type 0} where
  unfoldable pub add : Actor D → ActorRegistry D → ActorRegistry D
  add a r = record r { actors = assign a.id a r.actors }

  -- `get` and `get_mutable`: what the latter changes is written back with `put_back`.
  unfoldable pub get : String → ActorRegistry D → Option (Actor D)
  get id r = lookup id r.actors

  unfoldable pub actor_ids : ActorRegistry D → List String
  actor_ids r = sort_by lt_id (map (λ kv. kv.0) r.actors)

  unfoldable pub put_back : String → Actor D → ActorRegistry D → ActorRegistry D
  put_back id a r = record r { actors = assign id a r.actors }

pub record PendingTask (D : Type 0) : Type 0 where
  pub info : TaskInfo
  pub process : Option (Process D)

pub record ScheduledInterval : Type 0 where
  pub start : Time
  pub end : Time
  pub demand : ℤ

pub record RankedActorCandidate (D : Type 0) : Type 0 where
  pub actor_id : String
  pub start_time : Time
  pub finish_time : Time
  pub distance_to_work : Time
  pub execution_cost : D
  pub uptime_utilization : D
  pub actor_load : ℤ
  pub preferred_actor : Bool

pub record CandidateSelection (D : Type 0) : Type 0 where
  pub candidate : RankedActorCandidate D
  pub ranking_reason_index : ℕ

abbrev pub ReservationTable : Type 0
ReservationTable = List (String × List ScheduledInterval)

abbrev pub CompletionTable : Type 0
CompletionTable = List (String × Time)

-- `kDefaultTaskDuration`, `kDefaultTaskPriority`, `kDefaultTaskReleaseTime`, `kDefaultTaskDemand`
-- and `kUnknownDistancePadding`.
abbrev pub default_task_duration : ℤ
default_task_duration = pos 1

abbrev pub default_task_priority : ℤ
default_task_priority = pos 0

abbrev pub default_task_release_time : ℤ
default_task_release_time = pos 0

abbrev pub default_task_demand : ℤ
default_task_demand = pos 1

abbrev pub unknown_distance_padding : ℤ
unknown_distance_padding = pos 1

-- `std::numeric_limits<Time>::max() / 4`, the end of a reservation of unknown length.
abbrev pub opaque_reservation_end : ℤ
opaque_reservation_end = pos 2_305_843_009_213_693_951
