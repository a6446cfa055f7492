-- ===== src/DiscreteTime/Exact.antt =====
-- discrete_time_formulation.cpp: the formulation's options, from the actors of a task to the model.
use task_orchestrator.Base.{
  ℕ, suc, ℤ, pos, ◌≤ℤ◌, ge→ltb_ℤ, ◌≡◌, sym, subst, inl, inr, String, true, List, [], ◌∷◌, Any, In,
}
use task_orchestrator.Data.{Time, Doubles, AvailabilityWindow}
use task_orchestrator.ConstraintIndex.{
  OptimizerTask, OptimizationModel, ConstraintIndex, ActorRef, eligible_actors_for_task,
}
use task_orchestrator.Optimizer.Types.{OptimizationOptions}
use task_orchestrator.DiscreteTime.{Building, task_capabilities_supported, push_actor, push_actors}
use task_orchestrator.DiscreteTime.Formulation.{
  Formulating, no_formulation, index_tasks, formulate_task, formulate_tasks,
  build_discrete_time_formulation,
}
use task_orchestrator.DiscreteTime.Options.{IsStartIn}
use task_orchestrator.DiscreteTime.Complete.{
  actor_place-some, push_actors-Any, formulate_tasks-Any, IsFor, push_windows-IsFor,
}

module _ {D : Type 0} (doubles : Doubles D) (llround : D → ℤ) (options : OptimizationOptions D)
    (model : OptimizationModel D) (task : OptimizerTask D) (ref : ActorRef D) (start : Time)
    (known : In ref.1 model.actors) (large_enough : task.demand ≤ℤ ref.1.capacity)
    (capable : task_capabilities_supported task ref.1 ≡ true) (later : pos 0 ≤ℤ start)
    (window : AvailabilityWindow) (of_actor : In window ref.1.availability_windows)
    (possible : IsStartIn task window start) where
  push_actor-IsFor :
      (task_index : ℕ) (b : Building)
      → Any
          (IsFor doubles llround options model task ref.1 start)
          (push_actor doubles llround options model task task_index ref b).options
  unfolding push_actor
  push_actor-IsFor task_index b =
      let (k, e) = actor_place-some ref.1 0 model.actors known in
      rw (ge→ltb_ℤ ref.1.capacity task.demand large_enough, capable, e, push_actor)
        (push_windows-IsFor doubles llround options model task ref.1 start task_index later window
          possible k ref.1.availability_windows b of_actor)

  push_actors-IsFor :
      (task_index : ℕ) (refs : List (ActorRef D)) (b : Building)
      → In ref refs
      → Any
          (IsFor doubles llround options model task ref.1 start)
          (push_actors doubles llround options model task task_index refs b).options
  unfolding push_actors
  push_actors-IsFor task_index [] b m = absurd m
  push_actors-IsFor task_index (r ∷ refs) b (inl e) =
      push_actors-Any doubles llround options model
        (IsFor doubles llround options model task ref.1 start) task task_index refs
        (push_actor doubles llround options model task task_index r b)
        (subst
          (λ r'.
            Any (IsFor doubles llround options model task ref.1 start)
              (push_actor doubles llround options model task task_index r' b).options)
          (sym e) (push_actor-IsFor task_index b))
  push_actors-IsFor task_index (r ∷ refs) b (inr m) =
      push_actors-IsFor task_index refs
        (push_actor doubles llround options model task task_index r b) m

  module _ (index : ConstraintIndex D)
      (eligible : In ref (eligible_actors_for_task index task)) where
    formulate_tasks-IsFor :
        (indexes : List (String × ℕ)) (task_index : ℕ) (tasks : List (OptimizerTask D))
        (f : Formulating)
        → In task tasks
        → Any
            (IsFor doubles llround options model task ref.1 start)
            (formulate_tasks doubles llround options model index indexes task_index tasks
              f).building.options
    unfolding formulate_tasks formulate_task
    formulate_tasks-IsFor indexes task_index [] f m = absurd m
    formulate_tasks-IsFor indexes task_index (t ∷ tasks) f (inl e) =
        formulate_tasks-Any doubles llround options model
          (IsFor doubles llround options model task ref.1 start) index indexes (suc task_index)
          tasks (formulate_task doubles llround options model index indexes task_index t f)
          (subst
            (λ t'.
              Any (IsFor doubles llround options model task ref.1 start)
                (formulate_task doubles llround options model index indexes task_index t'
                  f).building.options)
            (sym e)
            (push_actors-IsFor task_index (eligible_actors_for_task index task)
              (record (f.building) { option_indexes = [] }) eligible))
    formulate_tasks-IsFor indexes task_index (t ∷ tasks) f (inr m) =
        formulate_tasks-IsFor indexes (suc task_index) tasks
          (formulate_task doubles llround options model index indexes task_index t f) m

    -- The other way round, the discrete-time formulation has an option for each start that is
    -- possible and not negative: of a task of the model, on an actor of the model that is eligible
    -- for it, large enough and capable, within one of its windows, not before the release time,
    -- and keeping to the latest start and the deadline.
    pub build_discrete_time_formulation-IsFor :
        In task model.tasks
        → Any
            (IsFor doubles llround options model task ref.1 start)
            (build_discrete_time_formulation doubles llround options model index).options
    unfolding build_discrete_time_formulation
    build_discrete_time_formulation-IsFor m =
        formulate_tasks-IsFor (index_tasks 0 model.tasks []) 0 model.tasks
          (no_formulation doubles llround options model index) m
