-- ===== src/Tests/Search.antt =====
-- Runs of the branch-and-bound backend, and of the registry of backends.
use task_orchestrator.Base.{
  ◌+◌, ◌≤◌, ◌≡◌, refl, ℤ, pos, ◌-ℤ◌, ◌≤ℤ◌, max_ℤ, String, true, false, List, [], ◌∷◌, inl, Option,
  some, none, length, ◌*ℤ◌, ◌+ℤ◌, sort_by, contains, lookup, emplace, assign, add_id, All, AllPairs,
  arith,
}
use task_orchestrator.Scheduler.Capacity.{concurrent_demand_at, has_capacity_for_interval}
use task_orchestrator.ConstraintIndex.{
  OptimizerActor, OptimizerTask, OptimizationModel, ConstraintIndex, new_index,
  eligible_actors_for_task,
}
use task_orchestrator.Optimizer.Types.{
  OptimizationOptions, OptimizationSolution, OptimizedAssignment,
}
use task_orchestrator.Optimizer.Types.{BackendKind}
use task_orchestrator.Optimizer.Registry.{BackendEntry, find_backend}
use task_orchestrator.Optimizer.Optimize.{OptimizationBackend, optimize, indexed_entry}
use task_orchestrator.Optimizer.Create.{optimize-Verdict}
use task_orchestrator.IndexedExact.State.{SearchState, drop_descendants_if_blocked}
use task_orchestrator.IndexedExact.Candidates.{candidates_for_task}
use task_orchestrator.IndexedExact.Solve.{solve, root, remaining_possible}
use task_orchestrator.IndexedExact.Steps.{here, undecided}
use task_orchestrator.IndexedExact.Booked.{booked}
use task_orchestrator.IndexedExact.Placed.{IsMadeIn, IsApart}
use task_orchestrator.IndexedExact.Closed.{IsClosed, drop_descendants_if_blocked-IsClosed}
use task_orchestrator.IndexedExact.Solved.{Verdict, solve-Verdict}
use task_orchestrator.IndexedExact.Plans.{
  remaining_possible-exact, solve-within_capacity, solve-IsMadeIn, solve-IsApart,
}
use task_orchestrator.Tests.Samples.{whole_numbers}

abbrev pub bench : OptimizerActor ℤ
bench = record {
  id = "bench";
  kind = "machine";
  capacity = pos 1;
  availability_windows = record { start = pos 0; end = pos 10 } ∷ [];
  capabilities = [];
  execution_cost_per_unit = pos 1;
}

abbrev pub piece : String → ℤ → List String → List String → OptimizerTask ℤ
piece id priority needs excludes = record {
  id = id;
  duration = pos 2;
  release_time = pos 0;
  latest_start_time = none;
  deadline = some (pos 9);
  priority = priority;
  demand = pos 1;
  mandatory = true;
  preemptible = false;
  allowed_actor_types = [];
  allowed_actor_ids = [];
  preferred_actor_ids = [];
  required_capabilities = [];
  dependency_task_ids = needs;
  mutually_exclusive_task_ids = excludes;
  actor_distances = [];
  tardiness_cost_per_unit = pos 0;
  early_start_bonus = pos 0;
}

abbrev pub defaults : OptimizationOptions ℤ
defaults = record {
  backend_kind = BackendKind.auto;
  time_limit_ms = pos 0;
  relative_gap_limit = pos 0;
  num_search_workers = pos 1;
  allow_partial_plan = true;
  objective = record {
    fulfilled_task_weight = pos 1000000;
    priority_weight = pos 1000;
    makespan_weight = pos 0 -ℤ pos 1;
    travel_distance_weight = pos 0 -ℤ pos 1;
    tardiness_weight = pos 0 -ℤ pos 100;
    execution_cost_weight = pos 0 -ℤ pos 1;
    preferred_actor_weight = pos 10;
  };
}

abbrev bench_model : List (OptimizerTask ℤ) → OptimizationModel ℤ
bench_model tasks = record { id = "bench"; actors = bench ∷ []; tasks = tasks }

abbrev at : String → ℤ → ℤ → OptimizedAssignment
at id start end = record { task_id = id; actor_id = "bench"; start_time = start; end_time = end }

abbrev pub shop : OptimizationModel ℤ
shop = bench_model (
    piece "saw" (pos 1) [] []
    ∷ piece "glue" (pos 2) ("saw" ∷ []) []
    ∷ piece "drill" (pos 3) [] []
    ∷ [])

abbrev pub shop_index : ConstraintIndex ℤ
shop_index = new_index shop

abbrev shop_plan : OptimizationSolution
shop_plan = record {
  ok = true;
  assignments =
      at "drill" (pos 0) (pos 2) ∷ at "saw" (pos 2) (pos 4) ∷ at "glue" (pos 4) (pos 6) ∷ [];
  unfulfilled_task_ids = [];
  backend_name = "indexed_branch_and_bound";
  stats = record { search_nodes = 7; pruned_nodes = 3 };
  error_message = "";
}

shop_solved : solve whole_numbers shop shop_index defaults ≡ some shop_plan
unfolding solve new_index sort_by contains ◌-ℤ◌ candidates_for_task eligible_actors_for_task lookup
    emplace has_capacity_for_interval ◌+ℤ◌ concurrent_demand_at assign add_id
shop_solved = refl

solve-Verdict_example :
    (solution : OptimizationSolution) × (solve whole_numbers shop shop_index defaults
      ≡ some solution)
    × Verdict whole_numbers shop shop_index defaults solution
unfolding ◌*ℤ◌
solve-Verdict_example =
    solve-Verdict whole_numbers shop shop_index defaults
      (omega arith, (omega arith, (omega arith, tt)))

solve-within_capacity_example :
    concurrent_demand_at (booked (λ i. pos 1) "bench" shop_plan.assignments) (pos 3)
    ≤ℤ max_ℤ (pos 0) (pos 1)
unfolding eligible_actors_for_task new_index lookup emplace
solve-within_capacity_example =
    solve-within_capacity whole_numbers shop shop_index defaults shop_solved (λ i. pos 1)
      (λ i. pos 1) (refl, (refl, (refl, tt))) ((refl, tt), ((refl, tt), ((refl, tt), tt))) "bench"
      (pos 3)

solve-IsMadeIn_example :
    All (IsMadeIn whole_numbers shop shop_index shop_plan.assignments) shop_plan.assignments
solve-IsMadeIn_example = solve-IsMadeIn whole_numbers shop shop_index defaults shop_solved

solve-IsApart_example : AllPairs (IsApart whole_numbers shop shop_index) shop_plan.assignments
solve-IsApart_example = solve-IsApart whole_numbers shop shop_index defaults shop_solved

remaining_possible-exact_example :
    (remaining_possible shop (root shop) + length (root shop).scheduled + length (root shop).dropped
      ≡ 3)
    × (undecided shop.tasks (root shop) ≤ remaining_possible shop (root shop))
remaining_possible-exact_example =
    remaining_possible-exact whole_numbers shop shop_index defaults here

-- A dropped task, and one that waits for it.
abbrev saw_dropped : SearchState
saw_dropped = record {
  reservations = [];
  completion_times = [];
  scheduled = [];
  dropped = "saw" ∷ [];
  assignments = [];
}

drop_descendants_if_blocked-IsClosed_example :
    IsClosed whole_numbers shop shop_index shop.tasks (drop_descendants_if_blocked shop saw_dropped)
drop_descendants_if_blocked-IsClosed_example =
    drop_descendants_if_blocked-IsClosed whole_numbers shop shop_index saw_dropped

-- Tasks of a priority above a thousand: the plan without "saw" has the greater priority, and as
-- many tasks, but is pruned.
abbrev steep : OptimizationModel ℤ
steep = bench_model (
    piece "saw" (pos 1500) [] []
    ∷ piece "glue" (pos 0) [] []
    ∷ piece "paint" (pos 5000) ("glue" ∷ []) ("saw" ∷ [])
    ∷ [])

assigned : Option OptimizationSolution → List OptimizedAssignment
assigned none = []
assigned (some s) = s.assignments

steep_run :
    assigned (solve whole_numbers steep (new_index steep) defaults)
    ≡ at "saw" (pos 0) (pos 2) ∷ at "glue" (pos 2) (pos 4) ∷ []
unfolding solve new_index sort_by contains ◌-ℤ◌ candidates_for_task eligible_actors_for_task lookup
    emplace has_capacity_for_interval ◌+ℤ◌ concurrent_demand_at assign add_id assigned ◌*ℤ◌
steep_run = refl

-- A registry with the indexed backend alone.
abbrev linked : List (BackendEntry (OptimizationBackend ℤ))
linked = indexed_entry whole_numbers ∷ []

optimize-Verdict_example :
    (solution : OptimizationSolution) × (optimize linked
        (record { options = defaults; backend = none })
        shop
      ≡ some solution)
    × Verdict whole_numbers shop shop_index defaults solution
unfolding ◌*ℤ◌ find_backend
optimize-Verdict_example =
    optimize-Verdict whole_numbers linked shop defaults refl refl refl (inl refl)
      (omega arith, (omega arith, (omega arith, tt)))
