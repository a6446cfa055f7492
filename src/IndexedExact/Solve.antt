-- ===== src/IndexedExact/Solve.antt =====
-- `IndexedBranchAndBoundBackend::solve` and `dfs` of
-- task_orchestrator/optimizer_backend/indexed_exact/indexed_exact_backend.cpp.
use task_orchestrator.Base.{
  ℕ, zero, suc, ◌+◌, ◌-◌, ◌*◌, pos, ◌+ℤ◌, String, Bool, true, false, not, ◌||◌, ◌&&◌, leb, List, [],
  ◌∷◌, ◌++◌, map, keep_if, length, Option, none, some, contains, assign, add_id, if◌then◌else◌,
  ◌>>=◌,
}
use task_orchestrator.Data.{Doubles}
use task_orchestrator.Scheduler.Types.{ScheduledInterval}
use task_orchestrator.ConstraintIndex.{
  OptimizerActor, OptimizerTask, OptimizationModel, ConstraintIndex, push_at,
}
use task_orchestrator.Optimizer.Types.{OptimizationOptions, OptimizationSolution}
use task_orchestrator.IndexedExact.State.{
  priority_optimization_upper_bound_per_task, SearchState, SearchAssignment, ObjectiveScore,
  large_time, score_for, better_score, drop_descendants_if_blocked,
}
use task_orchestrator.IndexedExact.Candidates.{Candidate, ready_tasks, candidates_for_task}

-- What the recursion passes on by reference: `best`, `best_score` and `have_best`.
pub record Incumbent : Type 0 where
  pub best : OptimizationSolution
  pub best_score : ObjectiveScore
  pub have_best : Bool

-- `a - b` of `size_t`, of 64 bits.
abbrev pub sub_size : ℕ → ℕ → ℕ
sub_size a b = if leb b a then a - b else 18446744073709551616 + a - b

abbrev pub count_node : OptimizationSolution → OptimizationSolution
count_node best = record best {
  stats = record (best.stats) { search_nodes = suc (best.stats.search_nodes) };
}

abbrev pub count_pruned : OptimizationSolution → OptimizationSolution
count_pruned best = record best {
  stats = record (best.stats) { pruned_nodes = suc (best.stats.pruned_nodes) };
}

abbrev pub no_incumbent : Incumbent
no_incumbent = record {
  best = record {
    ok = true;
    assignments = [];
    unfulfilled_task_ids = [];
    backend_name = "indexed_branch_and_bound";
    stats = record { search_nodes = 0; pruned_nodes = 0 };
    error_message = "";
  };
  best_score = record { fulfilled = 0; total_priority = pos 0; makespan = large_time };
  have_best = false;
}

abbrev pub conclude : Incumbent → OptimizationSolution
conclude b =
    if not b.have_best
    then record (b.best) { ok = false; error_message = "No optimization result could be produced." }
    else b.best

module _ {D : Type 0} where
  unfoldable pub remaining_possible : OptimizationModel D → SearchState → ℕ
  remaining_possible model state =
      sub_size (sub_size (length model.tasks) (length state.scheduled)) (length state.dropped)

  unfoldable pub optimistic : OptimizationModel D → SearchState → ObjectiveScore → ObjectiveScore
  unfolding remaining_possible
  optimistic model state current = record {
    fulfilled = current.fulfilled + remaining_possible model state;
    total_priority =
        current.total_priority
        +ℤ pos (remaining_possible model state * priority_optimization_upper_bound_per_task);
    makespan = current.makespan;
  }

  abbrev pub unfulfilled : OptimizationModel D → SearchState → List String
  unfulfilled model state =
      map (λ (t : OptimizerTask D). t.id)
        (keep_if (λ (t : OptimizerTask D). not (contains t.id state.scheduled)) model.tasks)

  -- The branch of a node with no ready task.
  unfoldable pub offer : OptimizationModel D → SearchState → ObjectiveScore → Incumbent → Incumbent
  unfolding better_score
  offer model state current b =
      if not b.have_best || better_score current b.best_score
      then record {
        best = record (b.best) {
          assignments = map SearchAssignment.assignment state.assignments;
          unfulfilled_task_ids = unfulfilled model state;
        };
        best_score = current;
        have_best = true;
      }
      else b

  abbrev pub interval_of : OptimizerTask D → Candidate D → ScheduledInterval
  interval_of task candidate = record {
    start = candidate.start_time;
    end = candidate.end_time;
    demand = task.demand;
  }

  abbrev pub search_assignment : OptimizerTask D → Candidate D → SearchAssignment
  search_assignment task candidate = record {
    assignment = record {
      task_id = task.id;
      actor_id = candidate.actor_id;
      start_time = candidate.start_time;
      end_time = candidate.end_time;
    };
    priority = task.priority;
  }

  unfoldable pub assign_task : OptimizerTask D → SearchState → Candidate D → SearchState
  unfolding push_at
  assign_task task state candidate = record {
    scheduled = add_id task.id state.scheduled;
    dropped = state.dropped;
    completion_times = assign task.id candidate.end_time state.completion_times;
    reservations = push_at candidate.actor_id (interval_of task candidate) state.reservations;
    assignments = state.assignments ++ search_assignment task candidate ∷ [];
  }

  unfoldable pub drop_task : OptimizerTask D → SearchState → SearchState
  drop_task task state = record state { dropped = add_id task.id state.dropped }

  -- The loop over the candidates; none means that the fuel of a call ran out.
  unfoldable pub try_candidates :
      (SearchState → Incumbent → Option Incumbent)
      → OptimizerTask D
      → SearchState
      → List (Candidate D)
      → Incumbent
      → Option Incumbent
  unfolding assign_task
  try_candidates recur task state [] b = some b
  try_candidates recur task state (candidate ∷ more) b = do
    b' ← recur (assign_task task state candidate) b
    try_candidates recur task state more b'

  -- The branch that leaves the task out, where that is allowed.
  unfoldable pub try_without :
      OptimizationOptions D
      → (SearchState → Incumbent → Option Incumbent)
      → OptimizerTask D
      → SearchState
      → Incumbent
      → Option Incumbent
  unfolding drop_task
  try_without options recur task state b =
      if options.allow_partial_plan || not task.mandatory
      then recur (drop_task task state) b
      else some b

  -- The branch of a node with a ready task.
  unfoldable pub branch :
      Doubles D
      → ConstraintIndex D
      → OptimizationOptions D
      → (SearchState → Incumbent → Option Incumbent)
      → OptimizerTask D
      → SearchState
      → Incumbent
      → Option Incumbent
  unfolding try_candidates try_without
  branch doubles index options recur task state b = do
    b' ← try_candidates recur task state (candidates_for_task doubles task state index) b
    try_without options recur task state b'

  unfoldable pub is_pruned : OptimizationModel D → SearchState → ObjectiveScore → Incumbent → Bool
  unfolding optimistic better_score
  is_pruned model state current b =
      b.have_best && not (better_score (optimistic model state current) b.best_score)

  -- What `dfs` does after `drop_descendants_if_blocked`.
  unfoldable pub visit :
      Doubles D
      → OptimizationModel D
      → ConstraintIndex D
      → OptimizationOptions D
      → (SearchState → Incumbent → Option Incumbent)
      → SearchState
      → Incumbent
      → Option Incumbent
  unfolding is_pruned offer branch score_for ready_tasks
  visit doubles model index options recur state b =
      let current = score_for state options in
      if is_pruned model state current b
      then some (record b { best = count_pruned b.best })
      else elim (ready_tasks model state) [
        | [] ↦ some (offer model state current b)
        | task ∷ more ↦ branch doubles index options recur task state b
      ]

  -- On fuel: every call schedules or drops a task before it calls itself.
  unfoldable pub dfs :
      ℕ
      → Doubles D
      → OptimizationModel D
      → ConstraintIndex D
      → OptimizationOptions D
      → SearchState
      → Incumbent
      → Option Incumbent
  unfolding visit drop_descendants_if_blocked
  dfs zero doubles model index options state b = none
  dfs (suc fuel) doubles model index options state b =
      visit doubles model index options (dfs fuel doubles model index options)
        (drop_descendants_if_blocked model state) (record b { best = count_node b.best })

  unfoldable pub reserve_nothing :
      List (OptimizerActor D)
      → List (String × List ScheduledInterval)
      → List (String × List ScheduledInterval)
  reserve_nothing [] m = m
  reserve_nothing (actor ∷ actors) m = reserve_nothing actors (assign actor.id [] m)

  unfoldable pub root : OptimizationModel D → SearchState
  unfolding reserve_nothing
  root model = record {
    reservations = reserve_nothing model.actors [];
    completion_times = [];
    scheduled = [];
    dropped = [];
    assignments = [];
  }

  unfoldable pub solve :
      Doubles D
      → OptimizationModel D
      → ConstraintIndex D
      → OptimizationOptions D
      → Option OptimizationSolution
  unfolding dfs root
  solve doubles model index options = do
    b ← dfs (suc (length model.tasks)) doubles model index options (root model) no_incumbent
    some (conclude b)
