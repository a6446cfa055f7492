-- ===== src/IndexedExact/Plans.antt =====
-- The plans that `IndexedBranchAndBoundBackend::solve` of indexed_exact_backend.cpp returns.
use task_orchestrator.Base.{
  ◌+◌, ◌≤◌, ◌≡◌, ℤ, pos, ◌≤ℤ◌, max_ℤ, max_ℤ-bounds, String, some, length, All, AllPairs,
}
use task_orchestrator.Data.{Time, Doubles}
use task_orchestrator.Scheduler.Capacity.{concurrent_demand_at}
use task_orchestrator.ConstraintIndex.{OptimizationModel, ConstraintIndex, eligible_actors_for_task}
use task_orchestrator.Optimizer.Types.{OptimizationOptions, OptimizationSolution}
use task_orchestrator.IndexedExact.State.{SearchState}
use task_orchestrator.IndexedExact.Solve.{solve, root, remaining_possible}
use task_orchestrator.IndexedExact.Steps.{Reach, undecided, Reach-IsCounted}
use task_orchestrator.IndexedExact.Scores.{remaining_possible-fits}
use task_orchestrator.IndexedExact.Booked.{booked, Reach-within}
use task_orchestrator.IndexedExact.Placed.{IsMadeIn, IsApart}
use task_orchestrator.IndexedExact.Sound.{Reach-IsMadeIn, Reach-IsApart}
use task_orchestrator.IndexedExact.Solved.{solve-plan, root-IsCounted}

module _ {D : Type 0} (doubles : Doubles D) (model : OptimizationModel D)
    (index : ConstraintIndex D) (options : OptimizationOptions D) where
  -- In every state that the search can reach, the scheduled, the dropped and the remaining tasks
  -- add up to the tasks of the model, so that the unsigned subtractions do not wrap, and at least
  -- as many tasks remain as are undecided.
  pub remaining_possible-exact :
      {s : SearchState}
      → Reach doubles model index (root model) s
      → (remaining_possible model s + length s.scheduled + length s.dropped ≡ length model.tasks)
        × (undecided model.tasks s ≤ remaining_possible model s)
  remaining_possible-exact {s} r =
      remaining_possible-fits doubles model index options s
        (Reach-IsCounted doubles model index r (root-IsCounted doubles model index options))

  module _ {solution : OptimizationSolution}
      (solved : solve doubles model index options ≡ some solution) where
    -- At every time the demand of an actor's assignments in a solution of
    -- IndexedBranchAndBoundBackend::solve is within the actor's capacity, or is nothing where that
    -- is negative; where tasks of one id have one demand and eligible actors of one id one
    -- capacity.
    pub solve-within_capacity :
        (capacity_of demand_of : String → ℤ)
        → All (λ t. t.demand ≡ demand_of t.id) model.tasks
        → All
            (λ t.
              All (λ ref. ref.1.capacity ≡ capacity_of ref.1.id) (eligible_actors_for_task index t))
            model.tasks
        → (actor_id : String) (t : Time)
        → concurrent_demand_at (booked demand_of actor_id solution.assignments) t
          ≤ℤ max_ℤ (pos 0) (capacity_of actor_id)
    solve-within_capacity capacity_of demand_of sized limited actor_id t =
        solve-plan doubles model index options
          (λ plan.
            concurrent_demand_at (booked demand_of actor_id plan) t
            ≤ℤ max_ℤ (pos 0) (capacity_of actor_id))
          (unfold concurrent_demand_at in (max_ℤ-bounds (pos 0) (capacity_of actor_id)).0)
          (λ l r. Reach-within doubles model index capacity_of demand_of sized limited r actor_id t)
          solved

    -- Each assignment of a solution of IndexedBranchAndBoundBackend::solve is of a task of the
    -- model: it ends when the task's duration is over, is not before the release time, keeps to
    -- the latest start and the deadline, is on an eligible actor that is large and capable enough
    -- and, unless the task takes no time, open all the while; and each task that it depends on has
    -- an assignment that is over when it starts.
    pub solve-IsMadeIn :
        All (IsMadeIn doubles model index solution.assignments) solution.assignments
    solve-IsMadeIn =
        solve-plan doubles model index options
          (λ plan. All (IsMadeIn doubles model index plan) plan) tt
          (λ l r. Reach-IsMadeIn doubles model index r) solved

    -- Any two assignments of a solution of IndexedBranchAndBoundBackend::solve are of two tasks,
    -- and the one made later is of a task that does not list the other's as mutually exclusive.
    pub solve-IsApart : AllPairs (IsApart doubles model index) solution.assignments
    solve-IsApart =
        solve-plan doubles model index options (AllPairs (IsApart doubles model index)) tt
          (λ l r. Reach-IsApart doubles model index r) solved
