-- ===== src/Orchestrator/Tasks.antt =====
-- The bookkeeping of orchestrator.cpp: which tasks are in flight, and who does them.
use task_orchestrator.Base.{
  ◌≡◌, refl, inl, inr, String, Bool, true, false, not, ◌||◌, ◌&&◌, List, [], ◌∷◌, contains,
  contains-append, contains-erase_value, add_id, erase_value, lookup, lookup-assign,
  lookup-erase_key, is_some, Bool-cases, Option-cases, arith, eq_iff, ◌==◌, ltb_ℤ, pos,
  if◌then◌else◌,
}
use task_orchestrator.Data.{Time}
use task_orchestrator.Workflow.{Workflow}
use task_orchestrator.Scheduler.Types.{
  Assignment, WorkflowState, initial_workflow_state, ActorRegistry, get,
}
use task_orchestrator.Orchestrator.{
  Impl, may_dispatch, dispatch, dispatch_all, release_owner, set_actor_unavailable,
  notify_task_failed, notify_task_completed, mark_task_resumable,
}
use task_orchestrator.Orchestrator.Dispatch.{dispatch-contains}

-- A task has an owner exactly while it is in flight, and a task in flight is neither completed nor
-- marked as not resumable.
abbrev pub IsConsistent : WorkflowState → Type 0
IsConsistent s =
    (t : String)
    → (is_some (lookup t s.task_actor) ≡ contains t s.assigned_tasks)
      × ((contains t s.assigned_tasks
            && (contains t s.completed_tasks || contains t s.unresumable_tasks))
          ≡ false)

pub initial-IsConsistent : IsConsistent initial_workflow_state
unfolding initial_workflow_state lookup contains
initial-IsConsistent t = (refl, refl)

module _ {D : Type 0} (workflow : Workflow D) where
  pub dispatch-IsConsistent :
      (now : Time) (a : Assignment) (s : WorkflowState × ActorRegistry D)
      → may_dispatch workflow s.0 now a ≡ true
      → IsConsistent s.0
      → IsConsistent (dispatch workflow a s).0
  unfolding may_dispatch dispatch
  dispatch-IsConsistent now a s ok h t =
      let (owned, apart) = h t in
      (
        rw
            (
              lookup-assign a.task_id t a.actor_id s.0.task_actor,
              dispatch-contains workflow now a s t,
            )
            (ground arith),
        rw (dispatch-contains workflow now a s t) (
            ground
              (arith, contains-erase_value a.task_id t s.0.unresumable_tasks, eq_iff a.task_id t)),
      )

  pub dispatch_all-IsConsistent :
      (now : Time) (assignments : List Assignment) (s : WorkflowState × ActorRegistry D)
      → IsConsistent s.0
      → IsConsistent (dispatch_all workflow now assignments s).0
  unfolding dispatch_all
  dispatch_all-IsConsistent now [] s h = h
  dispatch_all-IsConsistent now (a ∷ rest) s h =
      dispatch_all-IsConsistent now rest
        (if may_dispatch workflow s.0 now a then dispatch workflow a s else s)
        (elim (Bool-cases (may_dispatch workflow s.0 now a)) [
          | inl e ↦ rw e (dispatch-IsConsistent now a s e h)
          | inr e ↦ rw e h
        ])

  -- Of the tables that matter here, releasing a task's owner changes the owner only.
  release_owner-frame :
      (id : String) (s : WorkflowState × ActorRegistry D)
      → let s' = (release_owner workflow id s).0 in
        (s'.assigned_tasks ≡ s.0.assigned_tasks)
        × (s'.completed_tasks ≡ s.0.completed_tasks)
        × (s'.unresumable_tasks ≡ s.0.unresumable_tasks)
        × ((t : String)
            → is_some (lookup t s'.task_actor)
              ≡ (not (id == t) && is_some (lookup t s.0.task_actor)))
  unfolding release_owner
  release_owner-frame id s =
      let erased = λ (t : String). lookup-erase_key id t s.0.task_actor in
      elim (Option-cases (lookup id s.0.task_actor)) [
        | inl e ↦ rw (e, release_owner) (refl, refl, refl, λ t. ground (arith, eq_iff id t))
        | inr (owner_id, e) ↦ elim (Option-cases (get owner_id s.1)) [
          | inl g ↦ rw (e, release_owner, g) (refl, refl, refl, λ t. ground (arith, erased t))
          | inr (owner, g) ↦ elim (Bool-cases (ltb_ℤ (pos 0) owner.current_load)) [
            | inl l ↦ rw (e, release_owner, g, l) (refl, refl, refl, λ t. ground (arith, erased t))
            | inr l ↦ rw (e, release_owner, g, l) (refl, refl, refl, λ t. ground (arith, erased t))
          ]
        ]
      ]

contains-singleton : (x y : String) → contains y (x ∷ []) ≡ (x == y)
unfolding contains
contains-singleton x y = ground arith

contains-add_id :
    (x y : String) (ys : List String) → contains y (add_id x ys) ≡ (x == y || contains y ys)
unfolding add_id
contains-add_id x y ys =
    ground (arith, contains-append y ys (x ∷ []), contains-singleton x y, eq_iff x y)

module _ {D M : Type 0} where
  pub notify_task_failed-IsConsistent :
      (id : String) (resumable : Bool) (o : Impl D M)
      → IsConsistent o.workflow_state
      → IsConsistent (notify_task_failed id resumable o).workflow_state
  unfolding notify_task_failed
  notify_task_failed-IsConsistent id resumable o h t =
      let state = o.workflow_state in
      let (a, c, u, w) = release_owner-frame o.workflow id (
        record state {
          assigned_tasks = erase_value id state.assigned_tasks;
          completed_tasks = erase_value id state.completed_tasks;
        },
        o.registry,
      ) in
      let (owned, apart) = h t in
      elim (Bool-cases resumable) [
        | inl e ↦
            rw (e, notify_task_failed)
              (rw (a, c, u)
                (ground (
                  arith,
                  w t,
                  owned,
                  apart,
                  eq_iff id t,
                  contains-erase_value id t state.assigned_tasks,
                  contains-erase_value id t state.completed_tasks,
                  contains-erase_value id t state.unresumable_tasks,
                )))
        | inr e ↦
            rw (e, notify_task_failed)
              (rw (a, c, u)
                (ground (
                  arith,
                  w t,
                  owned,
                  apart,
                  eq_iff id t,
                  contains-erase_value id t state.assigned_tasks,
                  contains-erase_value id t state.completed_tasks,
                  contains-append t (erase_value id state.unresumable_tasks) (id ∷ []),
                  contains-singleton id t,
                  contains-erase_value id t state.unresumable_tasks,
                )))
      ]

  pub notify_task_completed-IsConsistent :
      (id : String) (time : Time) (o : Impl D M)
      → IsConsistent o.workflow_state
      → IsConsistent (notify_task_completed id time o).workflow_state
  unfolding notify_task_completed
  notify_task_completed-IsConsistent id time o h t =
      let state = o.workflow_state in
      let (a, c, u, w) = release_owner-frame o.workflow id (
        record state {
          assigned_tasks = erase_value id state.assigned_tasks;
          completed_tasks = add_id id state.completed_tasks;
        },
        o.registry,
      ) in
      let (owned, apart) = h t in
      rw (a, c, u)
        (ground (
          arith,
          w t,
          owned,
          apart,
          eq_iff id t,
          contains-erase_value id t state.assigned_tasks,
          contains-add_id id t state.completed_tasks,
        ))

  pub mark_task_resumable-IsConsistent :
      (id : String) (o : Impl D M)
      → IsConsistent o.workflow_state
      → IsConsistent (mark_task_resumable id o).workflow_state
  unfolding mark_task_resumable
  mark_task_resumable-IsConsistent id o h t =
      let (owned, apart) = h t in
      (owned, ground (arith, apart, contains-erase_value id t o.workflow_state.unresumable_tasks))

  pub set_actor_unavailable-IsConsistent :
      (id : String) (unavailable : Bool) (o : Impl D M)
      → IsConsistent o.workflow_state
      → IsConsistent (set_actor_unavailable id unavailable o).workflow_state
  unfolding set_actor_unavailable
  set_actor_unavailable-IsConsistent id unavailable o h = elim (Bool-cases unavailable) [
    | inl e ↦ elim (Bool-cases (contains id o.workflow_state.unavailable_actors)) [
      | inl k ↦ rw (e, set_actor_unavailable, k) h
      | inr k ↦ rw (e, set_actor_unavailable, k) h
    ]
    | inr e ↦ elim (Bool-cases (contains id o.workflow_state.unavailable_actors)) [
      | inl k ↦ rw (e, set_actor_unavailable, k) h
      | inr k ↦ rw (e, set_actor_unavailable, k) h
    ]
  ]
