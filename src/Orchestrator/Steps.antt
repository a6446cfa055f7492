-- ===== src/Orchestrator/Steps.antt =====
-- What `start` and `tick` of orchestrator.cpp do to the workflow's state and the registry: at most a
-- dispatch.
use task_orchestrator.Base.{pos, not, true, false, some, ◌&&◌, List, if_holds}
use task_orchestrator.Data.{Time, Doubles}
use task_orchestrator.Fsm.{
  start_planning, tick as tick_event, same_state, planning, dispatching, idle, running, completing,
  PlannerState, Msm,
}
use task_orchestrator.Workflow.{Workflow, is_empty}
use task_orchestrator.Scheduler.Types.{Assignment, WorkflowState, ActorRegistry}
use task_orchestrator.Scheduler.Plan.{plan}
use task_orchestrator.Orchestrator.{Impl, dispatch_all}
use task_orchestrator.Orchestrator.Planning.{
  send, run_planning, apply_dispatch, start, plan_afresh, tick,
}

module _ {D M : Type 0} ⦃d : Doubles D⦄ (msm : Msm M)
    (Q : Workflow D → WorkflowState × ActorRegistry D → Type 0) where
  abbrev pub Holds : Impl D M → Type 0
  Holds o = Q o.workflow (o.workflow_state, o.registry)

  run_planning-Holds : (now : Time) (o : Impl D M) → Holds o → Holds (run_planning msm now o)
  unfolding run_planning send
  run_planning-Holds now o h =
      let schedule =
        plan o.workflow o.workflow_state o.registry now (some o.strategy)
          (some o.actor_ranking_profile) in
      if_holds Holds (schedule.ok && not (is_empty schedule.assignments)) h h

  plan_afresh-Holds : (now : Time) (o : Impl D M) → Holds o → Holds (plan_afresh msm now o)
  unfolding plan_afresh
  plan_afresh-Holds now o h = run_planning-Holds now (record o { replan_requested = false }) h

  pub start-Holds : (o : Impl D M) → Holds o → Holds (start msm o)
  unfolding start send
  start-Holds o h =
      run_planning-Holds (pos 0) (send msm start_planning (record o { started = true })) h

  module _
      (dispatched : (workflow : Workflow D) (now : Time) (assignments : List Assignment)
          (s : WorkflowState × ActorRegistry D)
        → Q workflow s
        → Q workflow (dispatch_all workflow now assignments s)) where
    apply_dispatch-Holds : (now : Time) (o : Impl D M) → Holds o → Holds (apply_dispatch msm now o)
    unfolding apply_dispatch send
    apply_dispatch-Holds now o h =
        let h' =
          dispatched o.workflow now o.latest_schedule.assignments (o.workflow_state, o.registry)
            h in
        if_holds Holds (same_state o.fsm.last_known_state dispatching) h' h'

    pub tick-Holds : (now : Time) (o : Impl D M) → Holds o → Holds (tick msm now o)
    unfolding tick send
    tick-Holds now o h = if_holds Holds (not o.started) h (
        if_holds Holds (o.replan_requested && not (same_state o.fsm.last_known_state planning))
          (plan_afresh-Holds now (send msm start_planning o) h) (by_state o.fsm.last_known_state))
      where
        by_state :
            (s : PlannerState)
            → Holds (elim s as (λ x. Impl D M) [
              | idle ↦ plan_afresh msm now (send msm start_planning o)
              | planning ↦ plan_afresh msm now o
              | dispatching ↦ apply_dispatch msm now o
              | running ↦ send msm tick_event (apply_dispatch msm now o)
              | completing ↦ o
            ])
        by_state idle = plan_afresh-Holds now (send msm start_planning o) h
        by_state planning = plan_afresh-Holds now o h
        by_state dispatching = apply_dispatch-Holds now o h
        by_state running = apply_dispatch-Holds now o h
        by_state completing = h
