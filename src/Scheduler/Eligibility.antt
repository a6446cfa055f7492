-- ===== src/Scheduler/Eligibility.antt =====
-- Which actors may do a task, and when at the earliest: the overrides of the workflow state come
-- before what the task's process says.
use task_orchestrator.Base.{
  pos, leb_ℤ, max_ℤ, String, Bool, true, false, ◌||◌, not, List, [], ◌∷◌, Option, none, some,
  contains, lookup, all_of, any_of, if◌then◌else◌,
}
use task_orchestrator.Data.{Time}
use task_orchestrator.Actor.{Actor}
use task_orchestrator.Workflow.{is_empty}
use task_orchestrator.Scheduler.Types.{PendingTask, WorkflowState, CompletionTable}

-- The first test of `actor_is_allowed`: an allow-list that is not empty names the actor.
abbrev pub listed : Option (List String) → String → Bool
listed none id = true
listed (some ids) id = is_empty ids || contains id ids

-- The loop of `dependency_ready_time`.
unfoldable pub dependencies_ready : CompletionTable → Time → List String → Option Time
dependencies_ready completion_times ready_time [] = some ready_time
dependencies_ready completion_times ready_time (dep ∷ deps) = elim (lookup dep completion_times) [
  | none ↦ none
  | some completion ↦ dependencies_ready completion_times (max_ℤ ready_time completion) deps
]

module _ {D : Type 0} where
  -- `nullptr` is `none`.
  unfoldable pub effective_allowed_actors : PendingTask D → WorkflowState → Option (List String)
  effective_allowed_actors task state = elim (lookup task.info.id state.task_allowed_actors) [
    | some actors ↦ some actors
    | none ↦ elim task.process [
      | none ↦ none
      | some process ↦
          if is_empty process.allowed_actor_ids then none else some process.allowed_actor_ids
    ]
  ]

  unfoldable pub effective_preferred_actors : PendingTask D → WorkflowState → Option (List String)
  effective_preferred_actors task state = elim (lookup task.info.id state.task_preferred_actors) [
    | some actors ↦ some actors
    | none ↦ elim task.process [
      | none ↦ none
      | some process ↦
          if is_empty process.preferred_actor_ids then none else some process.preferred_actor_ids
    ]
  ]

  unfoldable pub effective_release_time : PendingTask D → WorkflowState → Time
  effective_release_time task state = elim (lookup task.info.id state.task_release_time) [
    | some release ↦ release
    | none ↦ task.info.release_time
  ]

  unfoldable pub effective_latest_start_time : PendingTask D → Option Time
  effective_latest_start_time task = task.info.latest_start_time

  unfoldable pub actor_matches_type_constraints : PendingTask D → Actor D → Bool
  actor_matches_type_constraints task actor = elim task.process [
    | none ↦ true
    | some process ↦
        is_empty process.allowed_actor_types || contains actor.kind process.allowed_actor_types
  ]

  unfoldable pub actor_supports_required_capabilities : PendingTask D → Actor D → Bool
  actor_supports_required_capabilities task actor = elim task.process [
    | none ↦ true
    | some process ↦
        all_of (λ capability. contains capability actor.capabilities) process.required_capabilities
  ]

  unfoldable pub actor_is_allowed : PendingTask D → Actor D → WorkflowState → Bool
  unfolding effective_allowed_actors actor_matches_type_constraints
      actor_supports_required_capabilities
  actor_is_allowed task actor state =
      if not (listed (effective_allowed_actors task state) actor.id)
      then false
      else if not (actor_matches_type_constraints task actor)
      then false
      else if not (actor_supports_required_capabilities task actor)
      then false
      else leb_ℤ task.info.demand actor.capacity

  unfoldable pub dependency_ready_time : PendingTask D → CompletionTable → Option Time
  unfolding dependencies_ready
  dependency_ready_time task completion_times = elim task.process [
    | none ↦ some (pos 0)
    | some process ↦ dependencies_ready completion_times (pos 0) process.dependency_task_ids
  ]

  unfoldable pub mutex_conflict : PendingTask D → List String → Bool
  mutex_conflict task blocked_task_ids = elim task.process [
    | none ↦ false
    | some process ↦
        any_of (λ other. contains other blocked_task_ids) process.mutually_exclusive_task_ids
  ]
