-- ===== src/Orchestrator/Accounts.antt =====
-- The accounts of orchestrator.cpp over a run: each actor's load against the tasks in flight.
use task_orchestrator.Base.{
  ℤ, pos, ◌≤ℤ◌, ◌≡◌, inl, inr, String, Bool, true, false, List, [], ◌∷◌, none, some, lookup, IsMap,
  assign-IsMap, All, contains, Bool-cases, Option-cases, arith, leb, length, add_id, erase_value,
  if◌then◌else◌, if_holds,
}
use task_orchestrator.Data.{Time, Doubles}
use task_orchestrator.Fsm.{Msm}
use task_orchestrator.Workflow.{Workflow, phase_ids}
use task_orchestrator.Scheduler.Types.{Assignment, WorkflowState, ActorRegistry}
use task_orchestrator.Orchestrator.{
  Impl, task_demand, may_dispatch, dispatch, dispatch_all, release_owner, set_scheduling_strategy,
  set_actor_ranking_profile, set_actor_unavailable, notify_task_failed, notify_task_completed,
  mark_task_resumable,
}
use task_orchestrator.Orchestrator.Planning.{start, tick, send, complete_phase}
use task_orchestrator.Orchestrator.Calls.{
  Call, to_set_workflow, to_register_actor, to_set_strategy, to_set_profile, to_start, to_tick,
  to_set_unavailable, to_fail, to_complete, to_mark_resumable, to_complete_phase, perform,
  perform_all,
}
use task_orchestrator.Orchestrator.Tasks.{IsConsistent, dispatch-IsConsistent}
use task_orchestrator.Orchestrator.Reached.{perform-IsConsistent}
use task_orchestrator.Orchestrator.Steps.{start-Holds, tick-Holds}
use task_orchestrator.Orchestrator.Loads.{
  IsAccounted, dispatch-IsAccounted, release_owner-IsAccounted, release_owner-task_actor,
}
use task_orchestrator.Orchestrator.Demands.{erase_key-IsMap}

-- The calls made while a workflow runs: the workflow and the actors are set up before.
abbrev pub is_runtime : {D : Type 0} → Call D → Bool
is_runtime (to_set_workflow w) = false
is_runtime (to_register_actor a) = false
is_runtime _ = true

module _ {D : Type 0} (base : String → ℤ) where
  -- The books are kept: the bookkeeping is consistent, an owner stands once for each task, and every
  -- load is accounted for; and no task takes less than nothing.
  abbrev pub IsKept : Workflow D → WorkflowState × ActorRegistry D → Type 0
  IsKept workflow s =
      IsConsistent s.0
      × IsMap s.0.task_actor
      × IsAccounted base workflow s
      × ((t : String) → pos 0 ≤ℤ task_demand workflow t)

  unowned :
      (workflow : Workflow D) (now : Time) (a : Assignment) (s : WorkflowState × ActorRegistry D)
      → may_dispatch workflow s.0 now a ≡ true
      → IsConsistent s.0
      → lookup a.task_id s.0.task_actor ≡ none
  unfolding may_dispatch
  unowned workflow now a s ok h = elim (Option-cases (lookup a.task_id s.0.task_actor)) [
    | inl e ↦ e
    | inr (owner, e) ↦ absurd (ground (arith, (h a.task_id).0, ok, e))
  ]

  dispatch-IsKept :
      (workflow : Workflow D) (now : Time) (a : Assignment) (s : WorkflowState × ActorRegistry D)
      → may_dispatch workflow s.0 now a ≡ true
      → IsKept workflow s
      → IsKept workflow (dispatch workflow a s)
  dispatch-IsKept workflow now a s ok (consistent, mapped, accounted, demands) = (
    dispatch-IsConsistent workflow now a s ok consistent,
    unfold dispatch in assign-IsMap a.task_id a.actor_id s.0.task_actor mapped,
    dispatch-IsAccounted base workflow a s (unowned workflow now a s ok consistent) accounted,
    demands,
  )

  dispatch_all-IsKept :
      (workflow : Workflow D) (now : Time) (assignments : List Assignment)
      (s : WorkflowState × ActorRegistry D)
      → IsKept workflow s
      → IsKept workflow (dispatch_all workflow now assignments s)
  unfolding dispatch_all
  dispatch_all-IsKept workflow now [] s h = h
  dispatch_all-IsKept workflow now (a ∷ rest) s h =
      dispatch_all-IsKept workflow now rest
        (if may_dispatch workflow s.0 now a then dispatch workflow a s else s)
        (elim (Bool-cases (may_dispatch workflow s.0 now a)) [
          | inl e ↦ rw e (dispatch-IsKept workflow now a s e h)
          | inr e ↦ rw e h
        ])

  release_owner-IsMap :
      (workflow : Workflow D) (id : String) (s : WorkflowState × ActorRegistry D)
      → IsMap s.0.task_actor
      → IsMap (release_owner workflow id s).0.task_actor
  unfolding release_owner
  release_owner-IsMap workflow id s h = elim (Option-cases (lookup id s.0.task_actor)) [
    | inl e ↦ rw (e, release_owner) h
    | inr (owner, e) ↦
        rw (release_owner-task_actor workflow id owner s e) (erase_key-IsMap id s.0.task_actor h)
  ]

module _ {D M : Type 0} ⦃d : Doubles D⦄ (msm : Msm M) (base : String → ℤ)
    (bases : (k : String) → pos 0 ≤ℤ base k) where
  -- The books of the planner's state.
  abbrev pub Kept : Impl D M → Type 0
  Kept o = IsKept base o.workflow (o.workflow_state, o.registry)

  -- The books but for the consistency, which every call keeps.
  abbrev Loaded : Impl D M → Type 0
  Loaded o =
      IsMap o.workflow_state.task_actor
      × IsAccounted base o.workflow (o.workflow_state, o.registry)
      × ((t : String) → pos 0 ≤ℤ task_demand o.workflow t)

  loaded : (o : Impl D M) → Kept o → Loaded o
  loaded o (consistent, mapped, accounted, demands) = (mapped, accounted, demands)

  module _ (o : Impl D M) (h : Loaded o) where
    failed-Loaded : (id : String) (resumable : Bool) → Loaded (notify_task_failed id resumable o)
    unfolding notify_task_failed
    failed-Loaded id resumable =
        let s : WorkflowState × ActorRegistry D = (
          record o.workflow_state {
            assigned_tasks = erase_value id o.workflow_state.assigned_tasks;
            completed_tasks = erase_value id o.workflow_state.completed_tasks;
          },
          o.registry,
        ) in
        let m = release_owner-IsMap base o.workflow id s h.0 in
        let a = release_owner-IsAccounted base o.workflow id s h.0 h.2 bases h.1 in
        if_holds Loaded resumable (m, a, h.2) (m, a, h.2)

    completed-Loaded : (id : String) (time : Time) → Loaded (notify_task_completed id time o)
    unfolding notify_task_completed
    completed-Loaded id time =
        let s : WorkflowState × ActorRegistry D = (
          record o.workflow_state {
            assigned_tasks = erase_value id o.workflow_state.assigned_tasks;
            completed_tasks = add_id id o.workflow_state.completed_tasks;
          },
          o.registry,
        ) in
        (
          release_owner-IsMap base o.workflow id s h.0,
          release_owner-IsAccounted base o.workflow id s h.0 h.2 bases h.1,
          h.2,
        )

    unavailable-Loaded :
        (id : String) (unavailable : Bool) → Loaded (set_actor_unavailable id unavailable o)
    unfolding set_actor_unavailable
    unavailable-Loaded id unavailable =
        let known = contains id o.workflow_state.unavailable_actors in
        if_holds Loaded unavailable (if_holds Loaded known h h) (if_holds Loaded known h h)

    phase-Loaded : (id : String) → Loaded (complete_phase msm id o)
    unfolding complete_phase send
    phase-Loaded id =
        if_holds Loaded
          (leb (length (phase_ids o.workflow))
            (length (add_id id o.workflow_state.completed_phases)))
          h h

  perform-Loaded :
      (c : Call D) (o : Impl D M) → is_runtime c ≡ true → Kept o → Loaded (perform msm c o)
  unfolding perform set_actor_ranking_profile mark_task_resumable set_scheduling_strategy
  perform-Loaded (to_set_workflow w) o r h = cc
  perform-Loaded (to_register_actor a) o r h = cc
  perform-Loaded (to_set_strategy none) o r h = loaded o h
  perform-Loaded (to_set_strategy (some strategy)) o r h = loaded o h
  perform-Loaded (to_set_profile profile) o r h = loaded o h
  perform-Loaded to_start o r h = loaded (start msm o) (start-Holds msm (IsKept base) o h)
  perform-Loaded (to_tick now) o r h =
      loaded (tick msm now o) (tick-Holds msm (IsKept base) (dispatch_all-IsKept base) now o h)
  perform-Loaded (to_set_unavailable id unavailable) o r h =
      unavailable-Loaded o (loaded o h) id unavailable
  perform-Loaded (to_fail id resumable) o r h = failed-Loaded o (loaded o h) id resumable
  perform-Loaded (to_complete id time) o r h = completed-Loaded o (loaded o h) id time
  perform-Loaded (to_mark_resumable id) o r h = loaded o h
  perform-Loaded (to_complete_phase id) o r h = phase-Loaded o (loaded o h) id

  -- Through any calls but set_workflow and register_actor each actor's load stays its own load and
  -- the demand of its tasks in flight, and the bookkeeping stays consistent; where this holds to
  -- begin with, and no own load and no demand of a task is negative.
  pub perform_all-Kept :
      (calls : List (Call D)) (o : Impl D M)
      → All (λ c. is_runtime c ≡ true) calls
      → Kept o
      → Kept (perform_all msm calls o)
  unfolding perform_all
  perform_all-Kept [] o r h = h
  perform_all-Kept (c ∷ calls) o r h =
      perform_all-Kept calls (perform msm c o) r.1
        (let l = perform-Loaded c o r.0 h in (perform-IsConsistent msm c o h.0, l.0, l.1, l.2))
