-- ===== src/Tests/Plans.antt =====
-- Plans for the sample workflow.
use task_orchestrator.Base.{
  map, ℕ, ◌<◌, suc, length, ℤ, pos, ◌+ℤ◌, ◌≤ℤ◌, max_ℤ, ◌≡◌, refl, inl, inr, String, Bool, true,
  false, List, [], ◌∷◌, ◌++◌, Option, none, some, All, AllPairs, is_some, contains, lookup,
  lookup-assign, assign, arith, ◌==◌,
}
use task_orchestrator.Scheduler.Types.{
  WorkflowState, initial_workflow_state, ActorRegistry, add, get, PendingTask,
}
use task_orchestrator.Scheduler.Capacity.{concurrent_demand_at}
use task_orchestrator.Scheduler.Plan.{
  assignment_before, plan, plan_loop, plan_input, plan_start, plan_end,
}
use task_orchestrator.Base.{◌⊎◌, sort_by, inl, none, some, contains, lookup, ◌+ℤ◌, subst, is_some}
use mathlib.Core.Option.{some-injective}
use task_orchestrator.Scheduler.Types.{default_profile}
use task_orchestrator.Workflow.{Workflow}
use task_orchestrator.Scheduler.Capacity.Starts.{StartsAt}
use task_orchestrator.Scheduler.Eligibility.{
  actor_is_allowed, dependency_ready_time, effective_release_time,
}
use task_orchestrator.Scheduler.Ranking.{select_best_candidate}
use task_orchestrator.Scheduler.Found.{select_best_candidate_found}
use task_orchestrator.Tests.Samples.{cut}
use task_orchestrator.Scheduler.Ends.{plan_loop_total}
use task_orchestrator.Scheduler.Placement.{
  IsRegistry, add-IsRegistry, IsPlaced, planned_input, plan-IsPlaced,
}
use task_orchestrator.Scheduler.Booking.{booked}
use task_orchestrator.Scheduler.Load.{taken, load_index, plan-within_capacity}
use task_orchestrator.Scheduler.Dependencies.{IsDoneAt, pending_index, Respects, plan-Respects}
use task_orchestrator.Scheduler.Exclusion.{
  exclusion_index, Apart, IsCompatible, IsClear, plan-Apart,
}
use task_orchestrator.Scheduler.Pending.{AssignsToDo, plan-IsToDo}
use task_orchestrator.Tests.Samples.{job, whole_numbers, workshop, no_actors, ann, ben, team}

no_actors-IsRegistry : IsRegistry no_actors
unfolding get lookup
no_actors-IsRegistry id a h = cc

team-IsRegistry : IsRegistry team
team-IsRegistry =
    add-IsRegistry ben (add ann no_actors) (add-IsRegistry ann no_actors no_actors-IsRegistry)

-- "build" is completed.
abbrev later : WorkflowState
later = record initial_workflow_state {
  completed_phases = "build" ∷ [];
  completed_tasks = "cut" ∷ "glue" ∷ [];
}

plan_loop_total_example :
    let input = plan_input workshop initial_workflow_state team (pos 0) none none in
    let st = plan_start workshop initial_workflow_state team (pos 0) in
    is_some (plan_loop input (suc (length st.remaining_task_ids)) st) ≡ true
plan_loop_total_example =
    plan_loop_total (plan_input workshop initial_workflow_state team (pos 0) none none)
      (suc (length (plan_start workshop initial_workflow_state team (pos 0)).remaining_task_ids))
      (plan_start workshop initial_workflow_state team (pos 0)) (omega arith)

plan-IsPlaced_example :
    All
      (IsPlaced (planned_input workshop initial_workflow_state team (pos 0) none none))
      (plan workshop initial_workflow_state team (pos 0) none none).assignments
plan-IsPlaced_example =
    plan-IsPlaced workshop initial_workflow_state team (pos 0) none none team-IsRegistry

plan-within_capacity_example :
    concurrent_demand_at
      (taken workshop initial_workflow_state team (pos 0) none none "ann"
        ++ booked
            (load_index workshop initial_workflow_state team (pos 0) none none)
            "ann"
            (plan workshop initial_workflow_state team (pos 0) none none).assignments)
      (pos 2)
    ≤ℤ max_ℤ (pos 1) (
        concurrent_demand_at
          (taken workshop initial_workflow_state team (pos 0) none none "ann")
          (pos 2))
unfolding get add assign lookup
plan-within_capacity_example =
    plan-within_capacity workshop initial_workflow_state team (pos 0) none none "ann" ann (pos 2)
      team-IsRegistry refl

-- "cut" is in flight, and "glue" waits for it.
abbrev cutting : WorkflowState
cutting = record initial_workflow_state { assigned_tasks = "cut" ∷ [] }

plan-Respects_example :
    let assignments = (plan workshop cutting team (pos 0) none none).assignments in
    All
      (Respects
        (pending_index workshop cutting team (pos 0) none none)
        (IsDoneAt workshop cutting (pos 0))
        assignments)
      assignments
plan-Respects_example = plan-Respects workshop cutting team (pos 0) none none

plan-Apart_example :
    let placed = (plan_end workshop later team (pos 0) none none).assignments in
    let returned = (plan workshop later team (pos 0) none none).assignments in
    AllPairs (Apart (exclusion_index workshop later team (pos 0) none none)) placed
    × ((returned ≡ []) ⊎ (returned ≡ sort_by assignment_before placed))
    × AllPairs (IsCompatible (exclusion_index workshop later team (pos 0) none none)) returned
    × All (IsClear workshop later team (pos 0) none none) returned
plan-Apart_example = plan-Apart workshop later team (pos 0) none none

plan-IsToDo_example :
    All
      (AssignsToDo workshop later team (pos 0) none none)
      (plan workshop later team (pos 0) none none).assignments
plan-IsToDo_example = plan-IsToDo workshop later team (pos 0) none none

abbrev cut_task : PendingTask ℤ
cut_task = record {
  info = record {
    id = "cut";
    phase_id = "build";
    duration = pos 3;
    priority = pos 0;
    release_time = pos 0;
    deadline = some (pos 40);
    latest_start_time = none;
    demand = pos 1;
    dependency_count = 0;
  };
  process = some cut;
}

-- `ann` is free, and can do `cut` from 5 on.
ann-StartsAt : StartsAt ann [] (pos 0) (pos 3) (pos 1) (pos 5)
unfolding concurrent_demand_at ◌+ℤ◌
ann-StartsAt = record {
  released = omega arith;
  fits = inl (omega arith, omega arith);
  room = λ t from to. omega arith;
}

select_best_candidate_found_example :
    is_some (
      select_best_candidate cut_task
        ("ann" ∷ [])
        []
        team
        initial_workflow_state
        []
        []
        (pos 0)
        default_profile)
    ≡ true
unfolding get lookup add assign contains actor_is_allowed dependency_ready_time
    initial_workflow_state effective_release_time default_profile ◌+ℤ◌
select_best_candidate_found_example =
    select_best_candidate_found cut_task [] team initial_workflow_state [] ("ann" ∷ []) [] (pos 0)
      default_profile "ann" ann (pos 0) (pos 5) refl refl refl refl refl (omega arith) ann-StartsAt
      (λ limit e. cc)
      (λ limit e. subst (λ l. pos 8 ≤ℤ l) (some-injective (pos 40) limit e) (omega arith))

-- `cut` lists `glue` as mutually exclusive, and `glue` lists nothing.
abbrev one_sided : Workflow ℤ
one_sided = record workshop {
  processes =
      ("cut", job "cut" "build" (pos 3) [] ("glue" ∷ []))
      ∷ ("glue", job "glue" "build" (pos 4) [] [])
      ∷ [];
}

-- What is assigned in a workflow from the initial state: task, actor and start.
abbrev planned : Workflow ℤ → List (String × String × ℤ)
planned workflow =
    map {B = String × String × ℤ} (λ a. (a.task_id, a.actor_id, a.start_time))
      (plan workflow initial_workflow_state team (pos 0) none none).assignments

-- `cut` at once, by the first actor, and `glue` when `cut` is done. Of the one-sided exclusion both
-- tasks are assigned at once.
plan_test :
    (planned workshop ≡ ("cut", "ann", pos 0) ∷ ("glue", "ann", pos 3) ∷ [])
    × (planned one_sided ≡ ("cut", "ann", pos 0) ∷ ("glue", "ben", pos 0) ∷ [])
unfolding task_orchestrator.Base.◌+ℤ◌ task_orchestrator.Base.◌-ℤ◌ task_orchestrator.Base.contains
    task_orchestrator.Base.erase_value task_orchestrator.Base.add_id task_orchestrator.Base.lookup
    task_orchestrator.Base.assign task_orchestrator.Base.emplace task_orchestrator.Base.erase_key
    task_orchestrator.Base.insert_by task_orchestrator.Base.sort_by
    task_orchestrator.Actor.sorted_windows task_orchestrator.Actor.next_in_windows
    task_orchestrator.Actor.can_accept_at task_orchestrator.Actor.next_available_start
    task_orchestrator.Workflow.root_ids task_orchestrator.Workflow.ready_ids
    task_orchestrator.Workflow.add_phase task_orchestrator.Workflow.add_process
    task_orchestrator.Workflow.phase task_orchestrator.Workflow.process
    task_orchestrator.Workflow.phase_ids task_orchestrator.Workflow.process_ids
    task_orchestrator.Workflow.root_phases task_orchestrator.Workflow.ready_phases
    task_orchestrator.Workflow.task_ids_of task_orchestrator.Workflow.task_ids_for_phase
    task_orchestrator.Workflow.owner_of task_orchestrator.Workflow.process_for_task
    task_orchestrator.Strategy.edf_before task_orchestrator.Strategy.fifo_before
    task_orchestrator.Strategy.priority_before task_orchestrator.Strategy.sjf_before
    task_orchestrator.Strategy.edf_strategy task_orchestrator.Strategy.fifo_strategy
    task_orchestrator.Strategy.priority_only_strategy task_orchestrator.Strategy.sjf_strategy
    task_orchestrator.Scheduler.Types.default_profile
    task_orchestrator.Scheduler.Types.initial_workflow_state task_orchestrator.Scheduler.Types.add
    task_orchestrator.Scheduler.Types.get task_orchestrator.Scheduler.Types.actor_ids
    task_orchestrator.Scheduler.Types.put_back task_orchestrator.Scheduler.Capacity.demand_from
    task_orchestrator.Scheduler.Capacity.concurrent_demand_at
    task_orchestrator.Scheduler.Capacity.has_capacity_rounds
    task_orchestrator.Scheduler.Capacity.has_capacity_for_interval
    task_orchestrator.Scheduler.Capacity.search_window
    task_orchestrator.Scheduler.Capacity.search_one
    task_orchestrator.Scheduler.Capacity.search_windows
    task_orchestrator.Scheduler.Capacity.earliest_start
    task_orchestrator.Scheduler.Eligibility.dependencies_ready
    task_orchestrator.Scheduler.Eligibility.effective_allowed_actors
    task_orchestrator.Scheduler.Eligibility.effective_preferred_actors
    task_orchestrator.Scheduler.Eligibility.effective_release_time
    task_orchestrator.Scheduler.Eligibility.effective_latest_start_time
    task_orchestrator.Scheduler.Eligibility.actor_matches_type_constraints
    task_orchestrator.Scheduler.Eligibility.actor_supports_required_capabilities
    task_orchestrator.Scheduler.Eligibility.actor_is_allowed
    task_orchestrator.Scheduler.Eligibility.dependency_ready_time
    task_orchestrator.Scheduler.Eligibility.mutex_conflict
    task_orchestrator.Scheduler.Ranking.farthest
    task_orchestrator.Scheduler.Ranking.fallback_distance
    task_orchestrator.Scheduler.Ranking.effective_distance_to_work
    task_orchestrator.Scheduler.Ranking.preferred_actor_for_task
    task_orchestrator.Scheduler.Ranking.compare_by task_orchestrator.Scheduler.Ranking.compare_from
    task_orchestrator.Scheduler.Ranking.compare_candidates
    task_orchestrator.Scheduler.Ranking.build_candidate
    task_orchestrator.Scheduler.Ranking.better_of task_orchestrator.Scheduler.Ranking.candidate_of
    task_orchestrator.Scheduler.Ranking.select_from
    task_orchestrator.Scheduler.Ranking.select_best_candidate
    task_orchestrator.Scheduler.Tables.erase_all task_orchestrator.Scheduler.Tables.is_settled
    task_orchestrator.Scheduler.Tables.pending_task
    task_orchestrator.Scheduler.Tables.pending_of_phase
    task_orchestrator.Scheduler.Tables.pending_of_phases
    task_orchestrator.Scheduler.Tables.collect_pending_tasks
    task_orchestrator.Scheduler.Tables.validate_supported_tasks
    task_orchestrator.Scheduler.Tables.reserve task_orchestrator.Scheduler.Tables.empty_reservations
    task_orchestrator.Scheduler.Tables.complete_completed
    task_orchestrator.Scheduler.Tables.reserve_assigned
    task_orchestrator.Scheduler.Tables.reserve_opaque
    task_orchestrator.Scheduler.Tables.initialize_actor_reservations
    task_orchestrator.Scheduler.Tables.complete_assigned
    task_orchestrator.Scheduler.Tables.initialize_completion_times
    task_orchestrator.Scheduler.Order.apply_strategy
    task_orchestrator.Scheduler.Order.effective_ranking_profile
    task_orchestrator.Scheduler.Order.index_tasks
    task_orchestrator.Scheduler.Order.order_ready_tasks
    task_orchestrator.Scheduler.Order.filter_ready
    task_orchestrator.Scheduler.Order.collect_ready_tasks
    task_orchestrator.Scheduler.Order.index_pending task_orchestrator.Scheduler.Order.remaining_ids
    task_orchestrator.Scheduler.Plan.place task_orchestrator.Scheduler.Plan.drop_task
    task_orchestrator.Scheduler.Plan.visit task_orchestrator.Scheduler.Plan.visit_all
    task_orchestrator.Scheduler.Plan.plan_loop task_orchestrator.Scheduler.Plan.plan_input
    task_orchestrator.Scheduler.Plan.plan_start task_orchestrator.Scheduler.Plan.plan_end
    task_orchestrator.Scheduler.Plan.plan task_orchestrator.Scheduler.Plan.plan_lazy
plan_test = (refl, refl)
