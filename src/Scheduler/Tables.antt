-- ===== src/Scheduler/Tables.antt =====
-- What the planner starts from: the pending tasks, and the tables of reservations and completions.
use task_orchestrator.Base.{
  ℤ, pos, ◌+ℤ◌, ◌-ℤ◌, ltb_ℤ, leb_ℤ, max_ℤ, String, Bool, false, ◌||◌, List, [], ◌∷◌, ◌++◌, Option,
  none, some, contains, erase_value, lookup, assign, emplace, length, find_if, if◌then◌else◌,
}
use task_orchestrator.Data.{Time}
use task_orchestrator.Workflow.{Workflow, ready_phases, task_ids_for_phase, process_for_task}
use task_orchestrator.Scheduler.Types.{
  PendingTask, WorkflowState, ScheduledInterval, ActorRegistry, get, ReservationTable,
  CompletionTable, default_task_duration, default_task_priority, default_task_release_time,
  default_task_demand, opaque_reservation_end,
}
use task_orchestrator.Scheduler.Capacity.{concurrent_demand_at}
use task_orchestrator.Scheduler.Ranking.{reservations_of}

-- The ids without those that are resumable: `assigned.erase(resumable_id)` for each.
unfoldable pub erase_all : List String → List String → List String
erase_all [] ids = ids
erase_all (x ∷ xs) ids = erase_all xs (erase_value x ids)

-- The three tests of `collect_pending_tasks`: the task is not to be planned.
unfoldable pub is_settled : WorkflowState → String → Bool
unfolding erase_all
is_settled state task_id =
    contains task_id (erase_all state.resumable_tasks state.assigned_tasks)
    || contains task_id state.completed_tasks
    || contains task_id state.unresumable_tasks

module _ {D : Type 0} where
  -- The task with its process, or with the defaults where it has none.
  unfoldable pub pending_task : Workflow D → String → String → PendingTask D
  pending_task workflow phase_id task_id = elim (process_for_task workflow task_id) [
    | none ↦ record {
      info = record {
        id = task_id;
        phase_id = phase_id;
        duration = default_task_duration;
        priority = default_task_priority;
        release_time = default_task_release_time;
        deadline = none;
        latest_start_time = none;
        demand = default_task_demand;
        dependency_count = 0;
      };
      process = none;
    }
    | some process ↦ record {
      info = record {
        id = task_id;
        phase_id = phase_id;
        duration = process.estimated_duration;
        priority = process.priority;
        release_time = process.release_time;
        deadline = process.deadline;
        latest_start_time = process.latest_start_time;
        demand = process.demand;
        dependency_count = length process.dependency_task_ids;
      };
      process = some process;
    }
  ]

  -- The inner loop of `collect_pending_tasks`, over the tasks of a phase.
  unfoldable pub pending_of_phase :
      Workflow D → WorkflowState → String → List String → List (PendingTask D)
  unfolding is_settled pending_task
  pending_of_phase workflow state phase_id [] = []
  pending_of_phase workflow state phase_id (task_id ∷ ids) =
      let rest = pending_of_phase workflow state phase_id ids in
      if is_settled state task_id then rest else pending_task workflow phase_id task_id ∷ rest

  unfoldable pub pending_of_phases : Workflow D → WorkflowState → List String → List (PendingTask D)
  unfolding pending_of_phase
  pending_of_phases workflow state [] = []
  pending_of_phases workflow state (phase_id ∷ phases) =
      pending_of_phase workflow state phase_id (task_ids_for_phase workflow phase_id)
      ++ pending_of_phases workflow state phases

  unfoldable pub collect_pending_tasks : Workflow D → WorkflowState → List (PendingTask D)
  unfolding pending_of_phases
  collect_pending_tasks workflow state =
      pending_of_phases workflow state (ready_phases workflow state.completed_phases)

  abbrev is_preemptible : PendingTask D → Bool
  is_preemptible task = elim task.process [ none ↦ false | some process ↦ process.preemptible ]

  -- The first preemptible task, which the runtime scheduler refuses.
  unfoldable pub validate_supported_tasks : List (PendingTask D) → Option (PendingTask D)
  validate_supported_tasks tasks = find_if is_preemptible tasks

  abbrev pub duration_or_default : Workflow D → String → ℤ
  duration_or_default workflow task_id = elim (process_for_task workflow task_id) [
    | none ↦ default_task_duration
    | some process ↦ process.estimated_duration
  ]

  abbrev demand_or_default : Workflow D → String → ℤ
  demand_or_default workflow task_id = elim (process_for_task workflow task_id) [
    | none ↦ default_task_demand
    | some process ↦ process.demand
  ]

abbrev pub value_or {ℓ} : {A : Type ℓ} → Option A → A → A
value_or none a = a
value_or (some b) a = b

-- `reservations[actor_id].push_back(interval)`.
unfoldable pub reserve : String → ScheduledInterval → ReservationTable → ReservationTable
reserve actor_id interval table =
    assign actor_id (reservations_of actor_id table ++ interval ∷ []) table

-- The first loop of `initialize_actor_reservations`: `emplace` an empty list for each actor.
unfoldable pub empty_reservations : List String → ReservationTable → ReservationTable
empty_reservations [] table = table
empty_reservations (id ∷ ids) table = empty_reservations ids (emplace id [] table)

-- The two loops of `initialize_completion_times`.
unfoldable pub complete_completed :
    WorkflowState → Time → List String → CompletionTable → CompletionTable
complete_completed state now [] table = table
complete_completed state now (task_id ∷ ids) table = complete_completed state now ids (
    assign task_id
      (value_or (lookup task_id state.task_actual_completion_time)
        (value_or (lookup task_id state.task_planned_end_time) now))
      table)

module _ {D : Type 0} where
  -- The second loop: the tasks that are in flight.
  unfoldable pub reserve_assigned :
      Workflow D → WorkflowState → Time → List String → ReservationTable → ReservationTable
  unfolding reserve
  reserve_assigned workflow state now [] table = table
  reserve_assigned workflow state now (task_id ∷ ids) table =
      reserve_assigned workflow state now ids (elim (lookup task_id state.task_actor) [
        | none ↦ table
        | some actor_id ↦
            let start_time = value_or (lookup task_id state.task_planned_start_time) now in
            let end_time =
              value_or (lookup task_id state.task_planned_end_time)
                (max_ℤ start_time now +ℤ duration_or_default workflow task_id) in
            if leb_ℤ end_time start_time
            then table
            else reserve actor_id
                (record {
                  start = start_time;
                  end = end_time;
                  demand = demand_or_default workflow task_id;
                })
                table
      ])

  -- `state.actor_load`, or else the load that the registry has of the actor.
  abbrev baseline_load : ActorRegistry D → WorkflowState → String → ℤ
  baseline_load registry state actor_id = elim (lookup actor_id state.actor_load) [
    | some load ↦ load
    | none ↦ elim (get actor_id registry) [ none ↦ pos 0 | some actor ↦ actor.current_load ]
  ]

  -- The third loop: a load that the known reservations do not explain is reserved without end.
  unfoldable pub reserve_opaque :
      ActorRegistry D → WorkflowState → Time → List String → ReservationTable → ReservationTable
  unfolding reserve
  reserve_opaque registry state now [] table = table
  reserve_opaque registry state now (actor_id ∷ ids) table =
      let known = concurrent_demand_at (reservations_of actor_id table) now in
      let opaque_demand = max_ℤ (pos 0) (baseline_load registry state actor_id -ℤ known) in
      reserve_opaque registry state now ids (
        if ltb_ℤ (pos 0) opaque_demand
        then reserve actor_id
            (record { start = now; end = opaque_reservation_end; demand = opaque_demand }) table
        else table)

  unfoldable pub initialize_actor_reservations :
      Workflow D → ActorRegistry D → List String → WorkflowState → Time → ReservationTable
  unfolding empty_reservations reserve_assigned reserve_opaque
  initialize_actor_reservations workflow registry sorted_actor_ids state now =
      reserve_opaque registry state now sorted_actor_ids (
        reserve_assigned workflow state now state.assigned_tasks
          (empty_reservations sorted_actor_ids []))

  unfoldable pub complete_assigned :
      Workflow D → WorkflowState → Time → List String → CompletionTable → CompletionTable
  complete_assigned workflow state now [] table = table
  complete_assigned workflow state now (task_id ∷ ids) table =
      complete_assigned workflow state now ids (
        assign task_id
          (value_or (lookup task_id state.task_planned_end_time)
            (now +ℤ duration_or_default workflow task_id))
          table)

  unfoldable pub initialize_completion_times : Workflow D → WorkflowState → Time → CompletionTable
  unfolding complete_completed complete_assigned
  initialize_completion_times workflow state now =
      complete_assigned workflow state now state.assigned_tasks
        (complete_completed state now state.completed_tasks [])
