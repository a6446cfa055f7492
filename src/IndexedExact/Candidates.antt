-- ===== src/IndexedExact/Candidates.antt =====
-- `ready_tasks`, `earliest_start` and `candidates_for_task` of
-- task_orchestrator/optimizer_backend/indexed_exact/indexed_exact_backend.cpp.
use task_orchestrator.Base.{
  ℤ, pos, ◌+ℤ◌, ◌-ℤ◌, ltb_ℤ, leb_ℤ, lex, max_ℤ, String, Bool, false, not, ◌&&◌, ◌||◌, List, [], ◌∷◌,
  Option, none, some, all_of, any_of, contains, lookup, lt_id, sort_by, or_default, if◌then◌else◌,
}
use task_orchestrator.Data.{Time, Duration, Doubles}
use task_orchestrator.Workflow.{is_empty}
use task_orchestrator.Scheduler.Types.{ScheduledInterval}
use task_orchestrator.Scheduler.Capacity.{concurrent_demand_at, search_windows}
use task_orchestrator.ConstraintIndex.{
  OptimizerActor, OptimizerTask, OptimizationModel, ConstraintIndex, ActorRef,
  eligible_actors_for_task, dependencies_satisfied, dependency_blocked,
}
use task_orchestrator.IndexedExact.State.{
  large_time, SearchState, reservations_for_actor, is_decided,
}

pub record Candidate (D : Type 0) : Type 0 where
  pub actor_id : String
  pub start_time : Time
  pub end_time : Time
  pub distance : Time
  pub preferred : Bool
  pub load : ℤ
  pub execution_cost : D
  pub tardiness : Time

-- The windows are searched in the order in which the model lists them.
unfoldable pub earliest_start :
    {D : Type 0} → OptimizerActor D → List ScheduledInterval → Time → Duration → ℤ → Option Time
unfolding search_windows
earliest_start actor reservations release_time duration demand =
    if leb_ℤ duration (pos 0)
    then some release_time
    else search_windows actor.availability_windows reservations actor.capacity release_time duration
        demand

-- The comparison of the tuples by which ready tasks are sorted.
unfoldable pub ready_before : {D : Type 0} → OptimizerTask D → OptimizerTask D → Bool
ready_before lhs rhs = lex (pos 0 -ℤ lhs.priority) (pos 0 -ℤ rhs.priority) (
    lex (or_default large_time lhs.deadline) (or_default large_time rhs.deadline)
      (lex lhs.release_time rhs.release_time (lex lhs.duration rhs.duration (lt_id lhs.id rhs.id))))

abbrev pub rank_of : Bool → ℤ
rank_of preferred = if preferred then pos 0 else pos 1

-- The comparison of the tuples by which candidates are sorted.
unfoldable pub candidate_before : {D : Type 0} → Candidate D → Candidate D → Bool
candidate_before lhs rhs = lex (rank_of lhs.preferred) (rank_of rhs.preferred) (
    lex lhs.end_time rhs.end_time (
      lex lhs.start_time rhs.start_time
        (lex lhs.distance rhs.distance (lex lhs.load rhs.load (lt_id lhs.actor_id rhs.actor_id)))))

-- The loop over the dependencies that finds when the last of them is complete.
unfoldable pub ready_from : Time → List String → List (String × Time) → Time
ready_from latest [] completion_times = latest
ready_from latest (dep ∷ deps) completion_times =
    ready_from (elim (lookup dep completion_times) [ none ↦ latest | some end ↦ max_ℤ latest end ])
      deps completion_times

-- The result of a loop's body, where there is one, before those of the later rounds.
abbrev pub push_some {ℓ} : {A : Type ℓ} → Option A → List A → List A
push_some none xs = xs
push_some (some x) xs = x ∷ xs

-- `limit && t > *limit`.
abbrev pub is_past : Time → Option Time → Bool
is_past t none = false
is_past t (some limit) = ltb_ℤ limit t

module _ {D : Type 0} where
  unfoldable pub mutex_blocked : OptimizerTask D → SearchState → Bool
  mutex_blocked task state =
      any_of (λ other. contains other state.scheduled) task.mutually_exclusive_task_ids

  unfoldable pub is_ready : SearchState → OptimizerTask D → Bool
  unfolding dependency_blocked dependencies_satisfied
  is_ready state task =
      if is_decided state task
      then false
      else if dependency_blocked task state.dropped
      then false
      else dependencies_satisfied task state.scheduled state.dropped

  unfoldable pub collect_ready : SearchState → List (OptimizerTask D) → List (OptimizerTask D)
  unfolding is_ready
  collect_ready state [] = []
  collect_ready state (task ∷ tasks) =
      let rest = collect_ready state tasks in if is_ready state task then task ∷ rest else rest

  unfoldable pub ready_tasks : OptimizationModel D → SearchState → List (OptimizerTask D)
  unfolding collect_ready ready_before
  ready_tasks model state = sort_by ready_before (collect_ready state model.tasks)

  unfoldable pub has_capabilities : OptimizerTask D → OptimizerActor D → Bool
  has_capabilities task actor =
      all_of (λ capability. contains capability actor.capabilities) task.required_capabilities

  module _ (doubles : Doubles D) (task : OptimizerTask D) (state : SearchState) where
    abbrev pub release_of : Time
    release_of =
        max_ℤ task.release_time (ready_from (pos 0) task.dependency_task_ids state.completion_times)

    unfoldable pub candidate_at : OptimizerActor D → Time → Candidate D
    candidate_at actor start =
        let end = start +ℤ task.duration in
        record {
          actor_id = actor.id;
          start_time = start;
          end_time = end;
          distance = or_default large_time (lookup actor.id task.actor_distances);
          preferred = contains actor.id task.preferred_actor_ids;
          load = concurrent_demand_at (reservations_for_actor state actor.id) start;
          execution_cost =
              Doubles.mul doubles actor.execution_cost_per_unit
                (Doubles.of_int doubles task.duration);
          tardiness = elim task.deadline [
            | none ↦ pos 0
            | some limit ↦ max_ℤ (pos 0) (end -ℤ limit)
          ];
        }

    -- The end of the loop's body, once there is a start or none; `continue` gives none.
    unfoldable pub candidate_from : OptimizerActor D → Option Time → Option (Candidate D)
    unfolding candidate_at
    candidate_from actor none = none
    candidate_from actor (some start) =
        if is_past start task.latest_start_time || is_past (start +ℤ task.duration) task.deadline
        then none
        else some (candidate_at actor start)

    abbrev pub lacks_capability : OptimizerActor D → Bool
    lacks_capability actor =
        not (is_empty task.required_capabilities) && not (has_capabilities task actor)

    -- The body of the loop over the eligible actors.
    unfoldable pub candidate_on : OptimizerActor D → Option (Candidate D)
    unfolding earliest_start ready_from reservations_for_actor candidate_from has_capabilities
    candidate_on actor =
        if ltb_ℤ actor.capacity task.demand
        then none
        else if lacks_capability actor
        then none
        else candidate_from actor (
            earliest_start actor (reservations_for_actor state actor.id) release_of task.duration
              task.demand)

    unfoldable pub collect_candidates : List (ActorRef D) → List (Candidate D)
    unfolding candidate_on
    collect_candidates [] = []
    collect_candidates (ref ∷ refs) =
        let rest = collect_candidates refs in push_some (candidate_on ref.1) rest

    unfoldable pub candidates_for_task : ConstraintIndex D → List (Candidate D)
    unfolding collect_candidates mutex_blocked candidate_before
    candidates_for_task index =
        if mutex_blocked task state
        then []
        else sort_by candidate_before (collect_candidates (eligible_actors_for_task index task))
