-- ===== src/Tests/Parts.antt =====
-- The parts by themselves: the state machine, the actor, the workflow, the strategies, the capacity.
use mathlib.Core.List.{Perm}
use task_orchestrator.Base.{
  ℕ, ℤ, pos, ◌+ℤ◌, ◌-ℤ◌, ◌≤ℤ◌, ◌≡◌, ◌≢◌, refl, true, List, [], ◌∷◌, Option, none, some, AllPairs,
  contains, lookup, sort_by, insert_by, arith, if◌then◌else◌, ◌==◌, String,
}
use task_orchestrator.Fsm.{
  completing, start_planning, schedule_ready, dispatch_complete, phase_complete,
  all_phases_complete, MsmState, Machine, new_machine, set_state_change_callback, process_events,
}
use task_orchestrator.Fsm.Sync.{InSync, process_events-InSync, process_events-ne-completing}
use task_orchestrator.Actor.{sorted_windows, next_in_windows, can_accept_at, next_available_start}
use task_orchestrator.Actor.Availability.{next_available_start-earliest}
use task_orchestrator.Data.{window_contains}
use task_orchestrator.Workflow.{phase, ready_phases}
use task_orchestrator.Workflow.Ready.{ready_phases-progress}
use task_orchestrator.Strategy.{TaskInfo, edf_strategy}
use task_orchestrator.Strategy.Edf.{IsBeforeEdf, edf_strategy-order}
use task_orchestrator.Scheduler.Types.{ScheduledInterval}
use task_orchestrator.Scheduler.Capacity.{
  concurrent_demand_at, has_capacity_for_interval, earliest_start,
}
use task_orchestrator.Scheduler.Capacity.Starts.{StartsAt, earliest_start-StartsAt}
use task_orchestrator.Tests.Samples.{table_machine, ann, workshop}

abbrev watched : Machine MsmState
watched = set_state_change_callback (new_machine table_machine)

process_events-InSync_example : InSync table_machine (
    process_events table_machine (start_planning ∷ dispatch_complete ∷ schedule_ready ∷ []) watched)
unfolding set_state_change_callback new_machine
process_events-InSync_example =
    process_events-InSync table_machine (start_planning ∷ dispatch_complete ∷ schedule_ready ∷ [])
      watched refl

process_events-ne-completing_example :
    (process_events table_machine
      (start_planning ∷ phase_complete ∷ all_phases_complete ∷ [])
      (new_machine table_machine)).last_known_state
    ≢ completing
process_events-ne-completing_example =
    process_events-ne-completing table_machine
      (start_planning ∷ phase_complete ∷ all_phases_complete ∷ [])

-- A task of length 5 fits into the first window of `ann` no more at 8, and can start at 25.
next_available_start-earliest_example :
    (s : ℤ) × (next_available_start ann (pos 8) (pos 5) ≡ some s)
    × (can_accept_at ann s (pos 5) ≡ true)
    × (pos 8 ≤ℤ s)
    × (s ≤ℤ pos 25)
unfolding sorted_windows sort_by insert_by can_accept_at window_contains ◌+ℤ◌
next_available_start-earliest_example =
    next_available_start-earliest ann (pos 8) (pos 5) (pos 25) (omega arith)
      ((omega arith, tt), (tt, tt)) (omega arith, (omega arith, tt)) (omega arith) refl

-- At time 30 the first window of `ann` is over since 10: the answer is 20.
start_before_time_asked : next_available_start ann (pos 30) (pos 5) ≡ some (pos 20)
unfolding next_available_start sorted_windows sort_by insert_by next_in_windows ◌+ℤ◌
start_before_time_asked = refl

-- "build" comes before "finish".
abbrev stage : String → ℕ
stage id = if id == "build" then 0 else 1

ready_phases-progress_example :
    (r : String) × (contains r (ready_phases workshop ("build" ∷ [])) ≡ true)
unfolding lookup phase contains
ready_phases-progress_example =
    ready_phases-progress workshop ("build" ∷ []) stage (refl, (refl, tt))
      (tt, (((omega arith, refl), tt), tt)) "finish" refl refl

abbrev info : String → ℤ → Option ℤ → TaskInfo
info id priority deadline = record {
  id = id;
  phase_id = "build";
  duration = pos 1;
  priority = priority;
  release_time = pos 0;
  deadline = deadline;
  latest_start_time = none;
  demand = pos 1;
  dependency_count = 0;
}

abbrev three_tasks : List TaskInfo
three_tasks =
    info "a" (pos 0) none ∷ info "b" (pos 0) (some (pos 9)) ∷ info "c" (pos 1) (some (pos 30)) ∷ []

edf_strategy-order_example :
    AllPairs IsBeforeEdf (edf_strategy.order_tasks three_tasks)
    × Perm (edf_strategy.order_tasks three_tasks) three_tasks
edf_strategy-order_example = edf_strategy-order three_tasks

-- `ann` is taken from 2 to 6.
abbrev taken : List ScheduledInterval
taken = record { start = pos 2; end = pos 6; demand = pos 1 } ∷ []

earliest_start-StartsAt_example :
    StartsAt ann taken (pos 0) (pos 3) (pos 1) (pos 6)
    × ((t : ℤ) → StartsAt ann taken (pos 0) (pos 3) (pos 1) t → pos 6 ≤ℤ t)
unfolding earliest_start sorted_windows sort_by ◌-ℤ◌ has_capacity_for_interval ◌+ℤ◌
    concurrent_demand_at
earliest_start-StartsAt_example =
    earliest_start-StartsAt ann taken (pos 0) (pos 3) (pos 1) (omega arith) refl
