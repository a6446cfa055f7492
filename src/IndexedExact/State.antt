-- ===== src/IndexedExact/State.antt =====
-- The search state of task_orchestrator/optimizer_backend/indexed_exact/indexed_exact_backend.cpp
-- with its score, and the loop that drops the tasks whose dependencies are dropped.
use task_orchestrator.Base.{
  ℕ, zero, suc, ℤ, pos, ◌+ℤ◌, ◌-ℤ◌, ◌*ℤ◌, ltb_ℤ, ltb, lex, max_ℤ, String, Bool, true, false, ◌||◌,
  List, [], ◌∷◌, length, contains, add_id, if◌then◌else◌,
}
use task_orchestrator.Data.{Time}
use task_orchestrator.Scheduler.Types.{ScheduledInterval}
use task_orchestrator.ConstraintIndex.{
  OptimizerTask, OptimizationModel, list_at, dependency_blocked,
}
use task_orchestrator.Optimizer.Types.{OptimizationOptions, OptimizedAssignment}

-- `std::numeric_limits<Time>::max() / 4` and `std::numeric_limits<int>::max() / 4`.
abbrev pub large_time : Time
large_time = pos 2305843009213693951

abbrev pub large_candidate_load : ℤ
large_candidate_load = pos 536870911

abbrev pub priority_optimization_upper_bound_per_task : ℕ
priority_optimization_upper_bound_per_task = 1000000

pub record SearchAssignment : Type 0 where
  pub assignment : OptimizedAssignment
  pub priority : ℤ

pub record SearchState : Type 0 where
  pub reservations : List (String × List ScheduledInterval)
  pub completion_times : List (String × Time)
  pub scheduled : List String
  pub dropped : List String
  pub assignments : List SearchAssignment

pub record ObjectiveScore : Type 0 where
  pub fulfilled : ℕ
  pub total_priority : ℤ
  pub makespan : Time

unfoldable pub reservations_for_actor : SearchState → String → List ScheduledInterval
reservations_for_actor state actor_id = list_at actor_id state.reservations

-- The two folds of `score_for`, from the value so far.
unfoldable pub priority_from : ℤ → ℤ → List SearchAssignment → ℤ
priority_from weight running [] = running
priority_from weight running (a ∷ more) =
    priority_from weight (running +ℤ a.priority *ℤ weight) more

unfoldable pub makespan_from : Time → List SearchAssignment → Time
makespan_from running [] = running
makespan_from running (a ∷ more) = makespan_from (max_ℤ running a.assignment.end_time) more

unfoldable pub score_for : {D : Type 0} → SearchState → OptimizationOptions D → ObjectiveScore
unfolding priority_from makespan_from
score_for state options = record {
  fulfilled = length state.assignments;
  total_priority = priority_from options.objective.priority_weight (pos 0) state.assignments;
  makespan = makespan_from (pos 0) state.assignments;
}

-- The tuple of the first is greater: fulfilled tasks, then priority, then the shorter makespan.
unfoldable pub better_score : ObjectiveScore → ObjectiveScore → Bool
better_score lhs rhs =
    if ltb rhs.fulfilled lhs.fulfilled
    then true
    else if ltb lhs.fulfilled rhs.fulfilled
    then false
    else lex rhs.total_priority lhs.total_priority
        (ltb_ℤ (pos 0 -ℤ rhs.makespan) (pos 0 -ℤ lhs.makespan))

-- A task is decided once it is scheduled or dropped.
abbrev pub is_decided : {D : Type 0} → SearchState → OptimizerTask D → Bool
is_decided state task = contains task.id state.scheduled || contains task.id state.dropped

module _ {D : Type 0} where
  -- The body's two tests: a decided task is passed over.
  unfoldable pub is_blocked : SearchState → OptimizerTask D → Bool
  unfolding dependency_blocked
  is_blocked state task =
      if is_decided state task then false else dependency_blocked task state.dropped

  -- One round of the `while` loop of `drop_descendants_if_blocked`, with `changed`.
  unfoldable pub drop_round : List (OptimizerTask D) → SearchState → Bool → SearchState × Bool
  unfolding is_blocked
  drop_round [] state changed = (state, changed)
  drop_round (task ∷ tasks) state changed =
      drop_round tasks
        (if is_blocked state task
          then record state { dropped = add_id task.id state.dropped }
          else state)
        (if is_blocked state task then true else changed)

  unfoldable pub drop_rounds : ℕ → List (OptimizerTask D) → SearchState → SearchState
  unfolding drop_round
  drop_rounds zero tasks state = state
  drop_rounds (suc fuel) tasks state =
      let result = drop_round tasks state false in
      let again = drop_rounds fuel tasks result.0 in if result.1 then again else result.0

  -- Each round but the last drops a task, so one more than there are tasks are enough.
  unfoldable pub drop_descendants_if_blocked : OptimizationModel D → SearchState → SearchState
  unfolding drop_rounds
  drop_descendants_if_blocked model state = drop_rounds (suc (length model.tasks)) model.tasks state
