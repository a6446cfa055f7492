-- ===== src/Orchestrator/Planning.antt =====
-- The operations of orchestrator.cpp that move the planner's state machine.
use task_orchestrator.Base.{
  pos, leb, String, true, false, ◌&&◌, not, [], some, add_id, length, if◌then◌else◌,
}
use task_orchestrator.Data.{Time, Doubles}
use task_orchestrator.Fsm.{
  idle, planning, dispatching, running, completing, Event, start_planning, schedule_ready,
  dispatch_complete, phase_complete, all_phases_complete, tick as tick_event, Msm, same_state,
  new_machine, set_state_change_callback, process_event,
}
use task_orchestrator.Workflow.{is_empty, phase_ids}
use task_orchestrator.Strategy.{edf_strategy}
use task_orchestrator.Scheduler.Types.{default_profile, initial_workflow_state}
use task_orchestrator.Scheduler.Plan.{plan}
use task_orchestrator.Orchestrator.{Impl, dispatch_all}

module _ {D M : Type 0} ⦃d : Doubles D⦄ (msm : Msm M) where
  unfoldable pub new_orchestrator : Impl D M
  unfolding set_state_change_callback new_machine
  new_orchestrator = record {
    workflow = record { id = ""; phases = []; processes = [] };
    registry = record { actors = [] };
    strategy = edf_strategy;
    actor_ranking_profile = default_profile;
    fsm = set_state_change_callback (new_machine msm);
    workflow_state = initial_workflow_state;
    latest_schedule = record {
      ok = false;
      assignments = [];
      ranking_decision_criterion_index = [];
      error_message = "";
    };
    started = false;
    replan_requested = false;
  }

  -- `fsm_.process_event(e)`.
  unfoldable pub send : Event → Impl D M → Impl D M
  unfolding process_event
  send e o = record o { fsm = process_event msm e o.fsm }

  unfoldable pub run_planning : Time → Impl D M → Impl D M
  unfolding send plan
  run_planning now o =
      let schedule =
        plan o.workflow o.workflow_state o.registry now (some o.strategy)
          (some o.actor_ranking_profile) in
      let o' = record o { latest_schedule = schedule } in
      if schedule.ok && not (is_empty schedule.assignments) then send schedule_ready o' else o'

  unfoldable pub apply_dispatch : Time → Impl D M → Impl D M
  unfolding send dispatch_all
  apply_dispatch now o =
      let s =
        dispatch_all o.workflow now o.latest_schedule.assignments (o.workflow_state, o.registry) in
      let o' = record o { workflow_state = s.0; registry = s.1 } in
      if same_state o.fsm.last_known_state dispatching then send dispatch_complete o' else o'

  unfoldable pub start : Impl D M → Impl D M
  unfolding send run_planning
  start o = run_planning (pos 0) (send start_planning (record o { started = true }))

  -- The `replan_requested_ = false` and the planning that three branches of `tick` end in.
  unfoldable pub plan_afresh : Time → Impl D M → Impl D M
  unfolding run_planning
  plan_afresh now o = run_planning now (record o { replan_requested = false })

  unfoldable pub tick : Time → Impl D M → Impl D M
  unfolding send plan_afresh apply_dispatch
  tick now o =
      let s = o.fsm.last_known_state in
      if not o.started
      then o
      else if o.replan_requested && not (same_state s planning)
      then plan_afresh now (send start_planning o)
      else elim s [
        | idle ↦ plan_afresh now (send start_planning o)
        | planning ↦ plan_afresh now o
        | dispatching ↦ apply_dispatch now o
        | running ↦ send tick_event (apply_dispatch now o)
        | completing ↦ o
      ]

  unfoldable pub complete_phase : String → Impl D M → Impl D M
  unfolding send
  complete_phase phase_id o =
      let completed = add_id phase_id o.workflow_state.completed_phases in
      let o' =
        send phase_complete (record o {
          workflow_state = record o.workflow_state { completed_phases = completed };
        }) in
      if leb (length (phase_ids o.workflow)) (length completed)
      then send all_phases_complete o'
      else o'
