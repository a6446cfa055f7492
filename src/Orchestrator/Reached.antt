-- ===== src/Orchestrator/Reached.antt =====
-- The states that orchestrator.cpp reaches by any sequence of calls.
use task_orchestrator.Base.{
  inl, inr, String, List, [], ◌∷◌, Option, none, some, Bool-cases, leb, length, add_id,
}
use task_orchestrator.Data.{Doubles}
use task_orchestrator.Fsm.{Msm}
use task_orchestrator.Workflow.{phase_ids}
use task_orchestrator.Strategy.{SchedulingStrategy}
use task_orchestrator.Orchestrator.{
  Impl, set_workflow, register_actor, set_scheduling_strategy, set_actor_ranking_profile,
}
use task_orchestrator.Orchestrator.Planning.{new_orchestrator, send, complete_phase}
use task_orchestrator.Orchestrator.Calls.{
  Call, to_set_workflow, to_register_actor, to_set_strategy, to_set_profile, to_start, to_tick,
  to_set_unavailable, to_fail, to_complete, to_mark_resumable, to_complete_phase, perform,
  perform_all,
}
use task_orchestrator.Orchestrator.Steps.{start-Holds, tick-Holds}
use task_orchestrator.Orchestrator.Tasks.{
  IsConsistent, initial-IsConsistent, dispatch_all-IsConsistent, notify_task_failed-IsConsistent,
  notify_task_completed-IsConsistent, mark_task_resumable-IsConsistent,
  set_actor_unavailable-IsConsistent,
}

module _ {D M : Type 0} ⦃d : Doubles D⦄ (msm : Msm M) where
  complete_phase-IsConsistent :
      (id : String) (o : Impl D M)
      → IsConsistent o.workflow_state
      → IsConsistent (complete_phase msm id o).workflow_state
  unfolding complete_phase send
  complete_phase-IsConsistent id o h =
      elim (Bool-cases (
        leb (length (phase_ids o.workflow))
          (length (add_id id o.workflow_state.completed_phases)))) [
            | inl e ↦ rw (e, complete_phase) h
            | inr e ↦ rw (e, complete_phase) h
          ]

  strategy-IsConsistent :
      (strategy : Option SchedulingStrategy) (o : Impl D M)
      → IsConsistent o.workflow_state
      → IsConsistent (set_scheduling_strategy strategy o).workflow_state
  unfolding set_scheduling_strategy
  strategy-IsConsistent none o h = h
  strategy-IsConsistent (some strategy) o h = h

  pub perform-IsConsistent :
      (c : Call D) (o : Impl D M)
      → IsConsistent o.workflow_state
      → IsConsistent (perform msm c o).workflow_state
  unfolding perform set_workflow register_actor set_actor_ranking_profile
  perform-IsConsistent (to_set_workflow w) o h = initial-IsConsistent
  perform-IsConsistent (to_register_actor a) o h = h
  perform-IsConsistent (to_set_strategy strategy) o h = strategy-IsConsistent strategy o h
  perform-IsConsistent (to_set_profile profile) o h = h
  perform-IsConsistent to_start o h = start-Holds msm (λ w s. IsConsistent s.0) o h
  perform-IsConsistent (to_tick now) o h =
      tick-Holds msm (λ w s. IsConsistent s.0)
        (λ workflow time assignments s g. dispatch_all-IsConsistent workflow time assignments s g)
        now o h
  perform-IsConsistent (to_set_unavailable id unavailable) o h =
      set_actor_unavailable-IsConsistent id unavailable o h
  perform-IsConsistent (to_fail id resumable) o h = notify_task_failed-IsConsistent id resumable o h
  perform-IsConsistent (to_complete id time) o h = notify_task_completed-IsConsistent id time o h
  perform-IsConsistent (to_mark_resumable id) o h = mark_task_resumable-IsConsistent id o h
  perform-IsConsistent (to_complete_phase id) o h = complete_phase-IsConsistent id o h

  -- A state in which a task has an owner exactly while it is in flight, and a task in flight is
  -- neither completed nor blocked, is followed by such states, whatever calls are made.
  pub perform_all-IsConsistent :
      (calls : List (Call D)) (o : Impl D M)
      → IsConsistent o.workflow_state
      → IsConsistent (perform_all msm calls o).workflow_state
  unfolding perform_all
  perform_all-IsConsistent [] o h = h
  perform_all-IsConsistent (c ∷ calls) o h =
      perform_all-IsConsistent calls (perform msm c o) (perform-IsConsistent c o h)

  -- From construction on, whatever calls are made of the orchestrator, a task has an owner exactly
  -- while it is in flight, and a task in flight is neither completed nor marked as not resumable.
  pub reached-IsConsistent :
      (calls : List (Call D))
      → IsConsistent (perform_all msm calls (new_orchestrator msm)).workflow_state
  unfolding new_orchestrator
  reached-IsConsistent calls =
      perform_all-IsConsistent calls (new_orchestrator msm) initial-IsConsistent
