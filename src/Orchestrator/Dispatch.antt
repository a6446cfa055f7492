-- ===== src/Orchestrator/Dispatch.antt =====
-- What `apply_dispatch` of orchestrator.cpp assigns.
use task_orchestrator.Base.{
  ltb_ℤ, ◌≡◌, refl, ◌∙◌, ap, inl, inr, String, Bool, true, not, ◌||◌, ◌&&◌, List, [], ◌∷◌, contains,
  contains-append, contains-erase_value, any_of, Bool-cases, arith, eq_iff, ◌==◌,
}
use task_orchestrator.Data.{Time}
use task_orchestrator.Workflow.{Workflow}
use task_orchestrator.Scheduler.Types.{Assignment, WorkflowState, ActorRegistry}
use task_orchestrator.Orchestrator.{
  task_dependencies_completed, may_dispatch, dispatch, dispatch_all,
}

any_of_cong {ℓ} :
    {A : Type ℓ} (p q : A → Bool) (xs : List A) → ((x : A) → p x ≡ q x) → any_of p xs ≡ any_of q xs
any_of_cong p q [] f = refl
any_of_cong p q (x ∷ xs) f = ground (arith, f x, any_of_cong p q xs f)

contains-singleton : (x y : String) → contains y (x ∷ []) ≡ (x == y)
unfolding contains
contains-singleton x y = ground arith

module _ {D : Type 0} (workflow : Workflow D) (now : Time) where
  -- The assignment's start has come, its task waits for no other, and is neither done nor blocked.
  abbrev pub is_due : WorkflowState → Assignment → Bool
  is_due state a =
      not (ltb_ℤ now a.start_time)
      && task_dependencies_completed workflow state a.task_id
      && not (contains a.task_id state.completed_tasks)
      && not (contains a.task_id state.unresumable_tasks)

  may_dispatch-is_due :
      (state : WorkflowState) (a : Assignment)
      → may_dispatch workflow state now a
        ≡ (is_due state a && not (contains a.task_id state.assigned_tasks))
  unfolding may_dispatch
  may_dispatch-is_due state a = ground arith

  module _ (a : Assignment) (s : WorkflowState × ActorRegistry D) where
    pub dispatch-contains :
        (t : String)
        → contains t (dispatch workflow a s).0.assigned_tasks
          ≡ (contains t s.0.assigned_tasks || a.task_id == t)
    unfolding dispatch
    dispatch-contains t =
        contains-append t s.0.assigned_tasks (a.task_id ∷ [])
        ∙ ap (λ b. contains t s.0.assigned_tasks || b) (contains-singleton a.task_id t)

    dispatch-is_due :
        is_due s.0 a ≡ true → (b : Assignment) → is_due (dispatch workflow a s).0 b ≡ is_due s.0 b
    unfolding dispatch task_dependencies_completed
    dispatch-is_due due b = elim (Bool-cases (a.task_id == b.task_id)) [
      | inl e ↦ ground (
        arith,
        contains-erase_value a.task_id b.task_id s.0.unresumable_tasks,
        eq_iff a.task_id b.task_id,
      )
      | inr e ↦ ground (arith, contains-erase_value a.task_id b.task_id s.0.unresumable_tasks)
    ]

  -- After a dispatch the tasks in flight are those that were, and those of the schedule's
  -- assignments that are due: the start has come, the dependencies are completed, and the task is
  -- neither completed nor failed for good.
  pub dispatch_all-contains :
      (assignments : List Assignment) (s : WorkflowState × ActorRegistry D) (t : String)
      → contains t (dispatch_all workflow now assignments s).0.assigned_tasks ≡ (
          contains t s.0.assigned_tasks || any_of (λ a. a.task_id == t && is_due s.0 a) assignments)
  unfolding dispatch_all
  dispatch_all-contains [] s t = ground arith
  dispatch_all-contains (a ∷ assignments) s t =
      elim (Bool-cases (may_dispatch workflow s.0 now a)) [
        | inr e ↦
            rw (e, dispatch_all)
              (ground (
                arith,
                may_dispatch-is_due s.0 a,
                dispatch_all-contains assignments s t,
                eq_iff a.task_id t,
              ))
        | inl e ↦
            let due : is_due s.0 a ≡ true = ground (arith, may_dispatch-is_due s.0 a) in
            rw (e, dispatch_all)
              (ground (
                arith,
                due,
                dispatch_all-contains assignments (dispatch workflow a s) t,
                dispatch-contains a s t,
                any_of_cong (λ b. b.task_id == t && is_due (dispatch workflow a s).0 b)
                    (λ b. b.task_id == t && is_due s.0 b) assignments
                    (λ b. ap (λ x. b.task_id == t && x) (dispatch-is_due a s due b)),
              ))
      ]
