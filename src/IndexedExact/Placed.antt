-- ===== src/IndexedExact/Placed.antt =====
-- The assignments of the search of indexed_exact_backend.cpp: where and when each may be, what it
-- waits for, and what it does not exclude.
use task_orchestrator.Base.{
  ◌≡◌, ◌≢◌, sym, subst, pos, ◌+ℤ◌, ◌≤ℤ◌, max_ℤ, max_ℤ-bounds, String, true, false, List, [], ◌∷◌,
  none, some, contains, lookup, All, Any, In, inl, inr, ◌⊎◌, arith, Option-cases, ≤ℤ-trans,
}
use task_orchestrator.Data.{Time, Doubles}
use task_orchestrator.Actor.Availability.{FitsIn}
use task_orchestrator.ConstraintIndex.{
  OptimizerTask, OptimizationModel, ConstraintIndex, ActorRef, eligible_actors_for_task,
}
use task_orchestrator.Optimizer.Types.{OptimizedAssignment}
use task_orchestrator.IndexedExact.Candidates.{ready_from, has_capabilities}
use task_orchestrator.IndexedExact.Chosen.{Within}

ready_from-ge :
    (deps : List String) (ct : List (String × Time)) (latest : Time)
    → latest ≤ℤ ready_from latest deps ct
unfolding ready_from
ready_from-ge [] ct latest = omega arith
ready_from-ge (d ∷ deps) ct latest = elim (Option-cases (lookup d ct)) [
  | inl e ↦ rw e (ready_from-ge deps ct latest)
  | inr (end, e) ↦ rw e (
      ≤ℤ-trans latest (max_ℤ latest end) _ (max_ℤ-bounds latest end).0
        (ready_from-ge deps ct (max_ℤ latest end)))
]

-- The time from which the dependencies are complete is not before any of them is.
pub ready_from-complete :
    (deps : List String) (ct : List (String × Time)) (latest : Time) (d : String) {end : Time}
    → In d deps
    → lookup d ct ≡ some end
    → end ≤ℤ ready_from latest deps ct
unfolding ready_from
ready_from-complete [] ct latest d m h = absurd m
ready_from-complete (x ∷ deps) ct latest d {end} (inl same) h =
    rw (subst (λ y. lookup y ct ≡ some end) (sym same) h) (
      ≤ℤ-trans end (max_ℤ latest end) _ (max_ℤ-bounds latest end).1
        (ready_from-ge deps ct (max_ℤ latest end)))
ready_from-complete (x ∷ deps) ct latest d (inr m) h =
    ready_from-complete deps ct (elim (lookup x ct) [ none ↦ latest | some e ↦ max_ℤ latest e ]) d m
      h

module _ {D : Type 0} (doubles : Doubles D) (model : OptimizationModel D)
    (index : ConstraintIndex D) where
  -- The actor is eligible, large and capable enough, and open all the while.
  pub record CanDo (t : OptimizerTask D) (a : OptimizedAssignment) (ref : ActorRef D) : Type 0 where
    pub id : ref.1.id ≡ a.actor_id
    pub large : t.demand ≤ℤ ref.1.capacity
    pub capable : has_capabilities t ref.1 ≡ true
    pub opens :
        (t.duration ≤ℤ pos 0) ⊎ Any (FitsIn a.start_time t.duration) ref.1.availability_windows

  -- The assignment is of the task, at a time and to an actor that the task allows.
  pub record IsPlacedFor (t : OptimizerTask D) (a : OptimizedAssignment) : Type 0 where
    pub name : t.id ≡ a.task_id
    pub ends : a.end_time ≡ a.start_time +ℤ t.duration
    pub released : t.release_time ≤ℤ a.start_time
    pub latest : Within a.start_time t.latest_start_time
    pub deadline : Within (a.start_time +ℤ t.duration) t.deadline
    pub actor : Any (CanDo t a) (eligible_actors_for_task index t)

  -- Some assignment of the plan is of the task, and is over at the time.
  abbrev pub IsOver : List OptimizedAssignment → Time → String → Type 0
  IsOver plan start d = Any (λ b. (b.task_id ≡ d) × (b.end_time ≤ℤ start)) plan

  -- The assignment is of a task of the model, and all that the task waits for is over.
  abbrev pub IsMadeIn : List OptimizedAssignment → OptimizedAssignment → Type 0
  IsMadeIn plan a =
      Any (λ t. IsPlacedFor t a × All (IsOver plan a.start_time) t.dependency_task_ids) model.tasks

  -- Two assignments, the earlier made first: of two tasks, of which the second does not list the
  -- first as mutually exclusive.
  abbrev pub IsApart : OptimizedAssignment → OptimizedAssignment → Type 0
  IsApart a b =
      (a.task_id ≢ b.task_id)
      × Any (λ t. (t.id ≡ b.task_id) × (contains a.task_id t.mutually_exclusive_task_ids ≡ false))
          model.tasks
