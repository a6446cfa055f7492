-- ===== src/Orchestrator/Control.antt =====
-- When orchestrator.cpp plans and when it dispatches.
use task_orchestrator.Base.{
  ◌≡◌, ◌≢◌, refl, ◌∙◌, inl, inr, Bool, true, false, not, ◌&&◌, ◌||◌, some, Bool-cases, arith,
  if◌then◌else◌, if_cases,
}
use task_orchestrator.Data.{Time, Doubles}
use task_orchestrator.Fsm.{
  start_planning, schedule_ready, dispatch_complete, tick as tick_event, same_state, planning,
  dispatching, idle, running, completing, PlannerState, Msm, accepts,
}
use task_orchestrator.Fsm.Sync.{process_event_handled}
use task_orchestrator.Workflow.{Workflow, is_empty}
use task_orchestrator.Scheduler.Types.{initial_workflow_state, ScheduleResult}
use task_orchestrator.Scheduler.Plan.{plan}
use task_orchestrator.Orchestrator.{set_workflow, Impl, dispatch_all}
use task_orchestrator.Orchestrator.Planning.{send, run_planning, apply_dispatch, plan_afresh, tick}

-- The schedule is one to dispatch.
abbrev pub has_work : ScheduleResult → Bool
has_work schedule = schedule.ok && not (is_empty schedule.assignments)

module _ {D M : Type 0} ⦃d : Doubles D⦄ (msm : Msm M) where
  -- The planner has planned at `now` from the state `o`, and waits to dispatch what it found.
  abbrev pub HasPlanned : Time → Impl D M → Impl D M → Type 0
  HasPlanned now o o' =
      let schedule =
        plan o.workflow o.workflow_state o.registry now (some o.strategy)
          (some o.actor_ranking_profile) in
      (o'.replan_requested ≡ false)
      × (o'.latest_schedule ≡ schedule)
      × (o'.fsm.last_known_state ≡ (if has_work schedule then dispatching else planning))

  plan_afresh-HasPlanned :
      (now : Time) (o : Impl D M)
      → o.fsm.last_known_state ≡ planning
      → HasPlanned now o (plan_afresh msm now o)
  unfolding plan_afresh run_planning send
  plan_afresh-HasPlanned now o at_planning =
      let schedule =
        plan o.workflow o.workflow_state o.registry now (some o.strategy)
          (some o.actor_ranking_profile) in
      let taken : accepts schedule_ready o.fsm.last_known_state ≡ true =
        rw at_planning (unfold accepts in refl) in
      elim (Bool-cases (has_work schedule)) [
        | inl e ↦
            rw (e, run_planning)
              (refl, refl, (process_event_handled msm schedule_ready o.fsm taken).1)
        | inr e ↦ rw (e, run_planning) (refl, refl, at_planning)
      ]

  -- `StartPlanning` leads to planning from every state that is entered.
  start_planning-planning :
      (o : Impl D M)
      → o.fsm.last_known_state ≢ completing
      → (send msm start_planning o).fsm.last_known_state ≡ planning
  unfolding send accepts
  start_planning-planning o entered =
      (process_event_handled msm start_planning o.fsm (handled o.fsm.last_known_state entered)).1
    where
      handled : (s : PlannerState) → s ≢ completing → accepts start_planning s ≡ true
      handled idle n = refl
      handled completing n = absurd (n refl)
      handled _ n = refl

  -- Once started, and in any state but Completing, a tick plans anew from what is known at that
  -- time, if a replan was asked for or the planner is idle or still planning; the request is then
  -- served, and the planner waits to dispatch if there is work and goes on planning if not.
  pub tick-HasPlanned :
      (now : Time) (o : Impl D M)
      → o.started ≡ true
      → o.fsm.last_known_state ≢ completing
      → (o.replan_requested
          || same_state o.fsm.last_known_state idle
          || same_state o.fsm.last_known_state planning)
        ≡ true
      → HasPlanned now o (tick msm now o)
  unfolding tick send
  tick-HasPlanned now o on entered due =
      let P = HasPlanned now o in
      if_cases P (not o.started) (λ off. absurd (cc (off, on)))
        (λ _.
          if_cases P (o.replan_requested && not (same_state o.fsm.last_known_state planning))
            (λ _.
              plan_afresh-HasPlanned now (send msm start_planning o)
                (start_planning-planning o entered))
            (λ none_. by_state none_ o.fsm.last_known_state refl))
    where
      by_state :
          (o.replan_requested && not (same_state o.fsm.last_known_state planning)) ≡ false
          → (s : PlannerState) → o.fsm.last_known_state ≡ s
          → HasPlanned now o (elim s as (λ x. Impl D M) [
            | idle ↦ plan_afresh msm now (send msm start_planning o)
            | planning ↦ plan_afresh msm now o
            | dispatching ↦ apply_dispatch msm now o
            | running ↦ send msm tick_event (apply_dispatch msm now o)
            | completing ↦ o
          ])
      by_state unasked idle e =
          plan_afresh-HasPlanned now (send msm start_planning o) (start_planning-planning o entered)
      by_state unasked planning e = plan_afresh-HasPlanned now o e
      by_state unasked dispatching e = absurd (ground (arith, rw e at due, rw e at unasked))
      by_state unasked running e = absurd (ground (arith, rw e at due, rw e at unasked))
      by_state unasked completing e = absurd (entered e)

  -- The planner has dispatched at `now` from the state `o`, and runs.
  abbrev pub HasDispatched : Time → Impl D M → Impl D M → Type 0
  HasDispatched now o o' =
      let s =
        dispatch_all o.workflow now o.latest_schedule.assignments (o.workflow_state, o.registry) in
      (o'.workflow_state ≡ s.0)
      × (o'.registry ≡ s.1)
      × (o'.latest_schedule ≡ o.latest_schedule)
      × (o'.fsm.last_known_state ≡ running)

  dispatching-HasDispatched :
      (now : Time) (o : Impl D M)
      → o.fsm.last_known_state ≡ dispatching
      → HasDispatched now o (apply_dispatch msm now o)
  unfolding apply_dispatch send accepts
  dispatching-HasDispatched now o e =
      if_cases (HasDispatched now o) (same_state o.fsm.last_known_state dispatching)
        (λ _. (refl, refl, refl, (process_event_handled msm dispatch_complete o.fsm (rw e refl)).1))
        (λ no. absurd (cc (rw e at no)))

  running-HasDispatched :
      (now : Time) (o : Impl D M)
      → o.fsm.last_known_state ≡ running
      → HasDispatched now o (send msm tick_event (apply_dispatch msm now o))
  unfolding apply_dispatch send accepts
  running-HasDispatched now o e =
      if_cases (λ o'. HasDispatched now o (send msm tick_event o'))
        (same_state o.fsm.last_known_state dispatching) (λ no. absurd (cc (rw e at no)))
        (λ _. (refl, refl, refl, (process_event_handled msm tick_event o.fsm (rw e refl)).1 ∙ e))

  -- Once started, a tick that finds the planner dispatching or running, and no replan asked for,
  -- dispatches the latest schedule, keeps it, and leaves the planner running.
  pub tick-HasDispatched :
      (now : Time) (o : Impl D M)
      → o.started ≡ true
      → o.replan_requested ≡ false
      → (same_state o.fsm.last_known_state dispatching || same_state o.fsm.last_known_state running)
        ≡ true
      → HasDispatched now o (tick msm now o)
  unfolding tick
  tick-HasDispatched now o on unasked active =
      let P = HasDispatched now o in
      if_cases P (not o.started) (λ off. absurd (cc (off, on)))
        (λ _.
          if_cases P (o.replan_requested && not (same_state o.fsm.last_known_state planning))
            (λ asked. absurd (ground (arith, asked, unasked)))
            (λ _. by_state o.fsm.last_known_state refl))
    where
      by_state :
          (s : PlannerState)
          → o.fsm.last_known_state ≡ s
          → HasDispatched now o (elim s as (λ x. Impl D M) [
            | idle ↦ plan_afresh msm now (send msm start_planning o)
            | planning ↦ plan_afresh msm now o
            | dispatching ↦ apply_dispatch msm now o
            | running ↦ send msm tick_event (apply_dispatch msm now o)
            | completing ↦ o
          ])
      by_state dispatching e = dispatching-HasDispatched now o e
      by_state running e = running-HasDispatched now o e
      by_state _ e = absurd (cc (rw e at active))

  -- When set_workflow is called on a started, running planner with no replan asked for, the
  -- workflow state after the next tick is that of dispatching, from the empty state, the schedule
  -- the planner held before the call.
  pub set_workflow-HasDispatched :
      (workflow : Workflow D) (now : Time) (o : Impl D M)
      → o.started ≡ true
      → o.replan_requested ≡ false
      → o.fsm.last_known_state ≡ running
      → (tick msm now (set_workflow workflow o)).workflow_state
        ≡ (dispatch_all workflow now o.latest_schedule.assignments
            (initial_workflow_state, o.registry)).0
  unfolding set_workflow
  set_workflow-HasDispatched workflow now o on unasked active =
      (tick-HasDispatched now (set_workflow workflow o) on unasked (rw active refl)).0
