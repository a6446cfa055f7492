-- ===== src/Scheduler/Allowed.antt =====
-- What `actor_is_allowed` of scheduler.cpp asks of an actor, constraint by constraint.
use task_orchestrator.Base.{
  ◌≤ℤ◌, leb_ℤ, leb→le_ℤ, ◌≡◌, refl, String, Bool, true, ◌||◌, List, [], ◌∷◌, none, some, contains,
  lookup, All, all_of-All, arith, if◌then◌else◌,
}
use task_orchestrator.Data.{Process}
use task_orchestrator.Actor.{Actor}
use task_orchestrator.Workflow.{is_empty}
use task_orchestrator.Scheduler.Types.{PendingTask, WorkflowState}
use task_orchestrator.Scheduler.Eligibility.{
  listed, effective_allowed_actors, actor_matches_type_constraints,
  actor_supports_required_capabilities, actor_is_allowed,
}

-- The list names the value, or is empty.
abbrev pub admits : List String → String → Bool
admits allowed x = is_empty allowed || contains x allowed

-- The actor is on the workflow state's list for the task, or where it has none on the process's
-- list; it is of a type that the process allows, has every capability that the process requires,
-- and has the capacity for the task's demand.
pub record IsAllowed {D : Type 0} (task : PendingTask D) (actor : Actor D) (state : WorkflowState)
    : Type 0 where
  pub by_state :
      (ids : List String)
      → lookup task.info.id state.task_allowed_actors ≡ some ids
      → admits ids actor.id ≡ true
  pub by_process :
      (process : Process D)
      → task.process ≡ some process
      → lookup task.info.id state.task_allowed_actors ≡ none
      → admits process.allowed_actor_ids actor.id ≡ true
  pub of_type :
      (process : Process D)
      → task.process ≡ some process
      → admits process.allowed_actor_types actor.kind ≡ true
  pub capable :
      (process : Process D)
      → task.process ≡ some process
      → All (λ c. contains c actor.capabilities ≡ true) process.required_capabilities
  pub large_enough : task.info.demand ≤ℤ actor.capacity

module _ {D : Type 0} (task : PendingTask D) (actor : Actor D) (state : WorkflowState) where
  -- All four tests pass.
  passes :
      actor_is_allowed task actor state ≡ true
      → (listed (effective_allowed_actors task state) actor.id ≡ true)
        × (actor_matches_type_constraints task actor ≡ true)
        × (actor_supports_required_capabilities task actor ≡ true)
        × (leb_ℤ task.info.demand actor.capacity ≡ true)
  unfolding actor_is_allowed
  passes h = ground arith

  pub actor_is_allowed-IsAllowed :
      actor_is_allowed task actor state ≡ true → IsAllowed task actor state
  unfolding effective_allowed_actors actor_matches_type_constraints
      actor_supports_required_capabilities
  actor_is_allowed-IsAllowed h =
      let (named, typed, able, large) = passes h in
      record {
        by_state = λ ids e. rw (e, effective_allowed_actors) at named;
        by_process = λ process p e.
            from_process process.allowed_actor_ids (rw (e, effective_allowed_actors, p) at named);
        of_type = λ process p. rw (p, actor_matches_type_constraints) at typed;
        capable = λ process p.
            all_of-All (λ c. contains c actor.capabilities) process.required_capabilities
              (rw (p, actor_supports_required_capabilities) at able);
        large_enough = leb→le_ℤ task.info.demand actor.capacity large;
      }
    where
      from_process :
          (ids : List String)
          → listed (if is_empty ids then none else some ids) actor.id ≡ true
          → admits ids actor.id ≡ true
      from_process [] h = refl
      from_process (x ∷ xs) h = h
