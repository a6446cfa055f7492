-- ===== src/Orchestrator.antt =====
-- task_orchestrator/include/task_orchestrator/core/orchestrator.hpp and
-- task_orchestrator/src/core/orchestrator.cpp: the planner's state and its operations.

pub mod Planning
pub mod Calls
pub mod Dispatch
pub mod Tasks
pub mod Steps
pub mod Reached
pub mod Accounts
pub mod Control
pub mod Demands
pub mod Loads
use task_orchestrator.Base.{
  ℕ, ℤ, pos, ◌+ℤ◌, ◌-ℤ◌, ltb_ℤ, leb, ◌==◌, max_ℤ, String, Bool, true, false, ◌||◌, ◌&&◌, not, List,
  [], ◌∷◌, ◌++◌, Option, none, some, contains, erase_value, add_id, lookup, assign, erase_key,
  length, all_of, if◌then◌else◌,
}
use task_orchestrator.Data.{Time, Duration, Doubles}
use task_orchestrator.Fsm.{
  PlannerState, idle, planning, dispatching, running, completing, Event, start_planning,
  schedule_ready, dispatch_complete, phase_complete, all_phases_complete, tick as tick_event, Msm,
  Machine, same_state, new_machine, set_state_change_callback, process_event,
}
use task_orchestrator.Actor.{Actor}
use task_orchestrator.Workflow.{Workflow, is_empty, phase_ids, process_for_task}
use task_orchestrator.Strategy.{SchedulingStrategy, edf_strategy}
use task_orchestrator.Scheduler.Types.{
  ActorRankingProfile, default_profile, Assignment, WorkflowState, initial_workflow_state,
  ScheduleResult, ActorRegistry, add, get, put_back,
}
use task_orchestrator.Scheduler.Plan.{plan}

-- `Orchestrator::Impl`. The strategy is never null, since `set_scheduling_strategy` keeps the old
-- one where it is given null.
pub record Impl (D M : Type 0) : Type 0 where
  pub workflow : Workflow D
  pub registry : ActorRegistry D
  pub strategy : SchedulingStrategy
  pub actor_ranking_profile : ActorRankingProfile
  pub fsm : Machine M
  pub workflow_state : WorkflowState
  pub latest_schedule : ScheduleResult
  pub started : Bool
  pub replan_requested : Bool

-- `erase` by iterator, of the first occurrence.
unfoldable pub erase_first : String → List String → List String
erase_first x [] = []
erase_first x (y ∷ ys) = if y == x then ys else y ∷ erase_first x ys

module _ {D : Type 0} where
  abbrev pub task_duration : Workflow D → String → Duration
  task_duration workflow task_id = elim (process_for_task workflow task_id) [
    | some proc ↦ proc.estimated_duration
    | none ↦ pos 1
  ]

  abbrev pub task_demand : Workflow D → String → ℤ
  task_demand workflow task_id = elim (process_for_task workflow task_id) [
    | some proc ↦ proc.demand
    | none ↦ pos 1
  ]

  unfoldable pub task_dependencies_completed : Workflow D → WorkflowState → String → Bool
  task_dependencies_completed workflow state task_id = elim (process_for_task workflow task_id) [
    | some proc ↦ all_of (λ dep. contains dep state.completed_tasks) proc.dependency_task_ids
    | none ↦ true
  ]

  -- The five tests of `apply_dispatch`, all of which an assignment passes that is dispatched.
  unfoldable pub may_dispatch : Workflow D → WorkflowState → Time → Assignment → Bool
  unfolding task_dependencies_completed
  may_dispatch workflow state now a =
      not (ltb_ℤ now a.start_time)
      && task_dependencies_completed workflow state a.task_id
      && not (contains a.task_id state.completed_tasks)
      && not (contains a.task_id state.assigned_tasks)
      && not (contains a.task_id state.unresumable_tasks)

  -- `actor->current_load += demand`, where the actor is registered.
  unfoldable pub add_load : String → ℤ → ActorRegistry D → ActorRegistry D
  unfolding get put_back
  add_load actor_id demand registry = elim (get actor_id registry) [
    | none ↦ registry
    | some actor ↦
        put_back actor_id (record actor { current_load = actor.current_load +ℤ demand }) registry
  ]

  abbrev pub load_of : String → ActorRegistry D → ℤ
  load_of actor_id registry = elim (get actor_id registry) [
    | none ↦ pos 0
    | some actor ↦ actor.current_load
  ]

  -- What the loop of `apply_dispatch` does with an assignment that passes the tests.
  unfoldable pub dispatch :
      Workflow D → Assignment → WorkflowState × ActorRegistry D → WorkflowState × ActorRegistry D
  unfolding add_load
  dispatch workflow a (state, registry) =
      let registry' = add_load a.actor_id (task_demand workflow a.task_id) registry in
      (
        record state {
          assigned_tasks = state.assigned_tasks ++ a.task_id ∷ [];
          resumable_tasks = erase_value a.task_id state.resumable_tasks;
          unresumable_tasks = erase_value a.task_id state.unresumable_tasks;
          task_actor = assign a.task_id a.actor_id state.task_actor;
          actor_load = assign a.actor_id (load_of a.actor_id registry') state.actor_load;
          task_planned_start_time = assign a.task_id a.start_time state.task_planned_start_time;
          task_planned_end_time =
              assign a.task_id (a.start_time +ℤ task_duration workflow a.task_id)
                state.task_planned_end_time;
        },
        registry',
      )

  unfoldable pub dispatch_all :
      Workflow D
      → Time
      → List Assignment
      → WorkflowState × ActorRegistry D
      → WorkflowState × ActorRegistry D
  unfolding may_dispatch dispatch
  dispatch_all workflow now [] s = s
  dispatch_all workflow now (a ∷ rest) s =
      dispatch_all workflow now rest
        (if may_dispatch workflow s.0 now a then dispatch workflow a s else s)

  -- What `notify_task_failed` and `notify_task_completed` do with the load of a task's owner.
  unfoldable pub release_owner :
      Workflow D → String → WorkflowState × ActorRegistry D → WorkflowState × ActorRegistry D
  unfolding get put_back
  release_owner workflow task_id (state, registry) = elim (lookup task_id state.task_actor) [
    | none ↦ (state, registry)
    | some owner_id ↦
        let released = record state { task_actor = erase_key task_id state.task_actor } in
        elim (get owner_id registry) [
          | none ↦ (released, registry)
          | some owner ↦
              if ltb_ℤ (pos 0) owner.current_load
              then (let load = max_ℤ (pos 0) (owner.current_load -ℤ task_demand workflow task_id) in
                  (
                    record released { actor_load = assign owner.id load state.actor_load },
                    put_back owner_id (record owner { current_load = load }) registry,
                  ))
              else (released, registry)
        ]
  ]

module _ {D M : Type 0} where
  unfoldable pub set_workflow : Workflow D → Impl D M → Impl D M
  set_workflow w o = record o { workflow = w; workflow_state = initial_workflow_state }

  unfoldable pub register_actor : Actor D → Impl D M → Impl D M
  unfolding add
  register_actor a o = record o { registry = add a o.registry }

  unfoldable pub set_scheduling_strategy : Option SchedulingStrategy → Impl D M → Impl D M
  set_scheduling_strategy none o = o
  set_scheduling_strategy (some strategy) o = record o { strategy = strategy }

  unfoldable pub set_actor_ranking_profile : ActorRankingProfile → Impl D M → Impl D M
  set_actor_ranking_profile profile o = record o { actor_ranking_profile = profile }

  unfoldable pub set_actor_unavailable : String → Bool → Impl D M → Impl D M
  set_actor_unavailable actor_id unavailable o =
      let state = o.workflow_state in
      let known = contains actor_id state.unavailable_actors in
      if unavailable
      then (if known then o else record o {
        workflow_state = record state {
          unavailable_actors = state.unavailable_actors ++ actor_id ∷ [];
        };
        replan_requested = true;
      })
      else (if known
          then record o {
            workflow_state = record state {
              unavailable_actors = erase_first actor_id state.unavailable_actors;
            };
            replan_requested = true;
          }
          else o)

  unfoldable pub notify_task_failed : String → Bool → Impl D M → Impl D M
  unfolding release_owner
  notify_task_failed task_id resumable o =
      let state = o.workflow_state in
      let (state', registry') = release_owner o.workflow task_id (
        record state {
          assigned_tasks = erase_value task_id state.assigned_tasks;
          completed_tasks = erase_value task_id state.completed_tasks;
        },
        o.registry,
      ) in
      let unresumable = erase_value task_id state'.unresumable_tasks in
      let resumable_ids = erase_value task_id state'.resumable_tasks in
      if resumable
      then record o {
        registry = registry';
        workflow_state = record state' {
          unresumable_tasks = unresumable;
          resumable_tasks = resumable_ids ++ task_id ∷ [];
        };
        replan_requested = true;
      }
      else record o {
        registry = registry';
        workflow_state = record state' {
          unresumable_tasks = unresumable ++ task_id ∷ [];
          resumable_tasks = resumable_ids;
        };
      }

  unfoldable pub notify_task_completed : String → Time → Impl D M → Impl D M
  unfolding release_owner
  notify_task_completed task_id actual_completion_time o =
      let state = o.workflow_state in
      let (state', registry') = release_owner o.workflow task_id (
        record state {
          assigned_tasks = erase_value task_id state.assigned_tasks;
          completed_tasks = add_id task_id state.completed_tasks;
        },
        o.registry,
      ) in
      record o {
        registry = registry';
        workflow_state = record state' {
          task_actual_completion_time =
              assign task_id actual_completion_time state'.task_actual_completion_time;
        };
        replan_requested = true;
      }

  unfoldable pub mark_task_resumable : String → Impl D M → Impl D M
  mark_task_resumable task_id o =
      let state = o.workflow_state in
      record o {
        workflow_state = record state {
          unresumable_tasks = erase_value task_id state.unresumable_tasks;
          resumable_tasks = add_id task_id state.resumable_tasks;
        };
        replan_requested = true;
      }
