-- ===== src/Fsm/Sync.antt =====
-- The wrapper of planner_fsm.cpp and the Boost.MSM machine behind it stay in the same state.
use task_orchestrator.Base.{
  ◌≢◌, ◌≡◌, ◌∙◌, ap, inl, inr, true, false, some, List, [], ◌∷◌, arith, Option-cases, is_some,
}
use task_orchestrator.Fsm.{
  PlannerState, idle, planning, dispatching, running, completing, Event, start_planning, MsmState,
  msm_idle, msm_planning, msm_dispatching, msm_running, transition_table, target, Msm, Machine,
  accepts, next_state, new_machine, process_event, process_events,
}

abbrev pub shown : MsmState → PlannerState
shown msm_idle = idle
shown msm_planning = planning
shown msm_dispatching = dispatching
shown msm_running = running

-- The wrapper of the planner's state machine handles an event exactly where the transition table
-- has a row for it.
pub accepts-target :
    (e : Event) (m : MsmState) → accepts e (shown m) ≡ is_some (target transition_table m e)
unfolding accepts transition_table
accepts-target start_planning m = ground arith
accepts-target _ m = ground arith

target-next_state :
    (e : Event) (m t : MsmState)
    → target transition_table m e ≡ some t
    → shown t ≡ next_state e (shown m)
unfolding transition_table
target-next_state start_planning msm_idle t h = ground arith
target-next_state _ _ t h = ground arith

shown-ne-completing : (m : MsmState) → shown m ≢ completing
shown-ne-completing msm_idle e = cc
shown-ne-completing _ e = cc

module _ {M : Type 0} (msm : Msm M) where
  abbrev pub InSync : Machine M → Type 0
  InSync w = shown (msm.current w.fsm) ≡ w.last_known_state

  pub process_event_handled :
      (e : Event) (w : Machine M)
      → accepts e w.last_known_state ≡ true
      → ((process_event msm e w).fsm ≡ msm.fire e w.fsm)
        × ((process_event msm e w).last_known_state ≡ next_state e w.last_known_state)
  unfolding process_event
  process_event_handled start_planning w h = ground arith
  process_event_handled _ w h = ground arith

  process_event_ignored :
      (e : Event) (w : Machine M) → accepts e w.last_known_state ≡ false → process_event msm e w ≡ w
  unfolding process_event
  process_event_ignored start_planning w h = ground arith
  process_event_ignored _ w h = ground arith

  process_event-InSync : (e : Event) (w : Machine M) → InSync w → InSync (process_event msm e w)
  process_event-InSync e w h =
      let m = msm.current w.fsm in
      let known : accepts e w.last_known_state ≡ is_some (target transition_table m e) =
        rw (← h) (accepts-target e m) in
      elim (Option-cases (target transition_table m e)) [
        | inl none_ ↦ rw (process_event_ignored e w (cc)) h
        | inr (t, row) ↦
            let (moved, next) = process_event_handled e w (cc) in
            cc (moved, next, msm.follows_rows w.fsm e t row, target-next_state e m t row)
      ]

  -- Whatever events come, the state that the wrapper of the planner's state machine shows stays
  -- the state of the Boost.MSM machine behind it, where it is that to begin with.
  pub process_events-InSync :
      (es : List Event) (w : Machine M) → InSync w → InSync (process_events msm es w)
  unfolding process_events
  process_events-InSync [] w h = h
  process_events-InSync (e ∷ es) w h =
      process_events-InSync es (process_event msm e w) (process_event-InSync e w h)

  -- From construction on, no sequence of events brings the planner's state machine to the state
  -- Completing.
  pub process_events-ne-completing :
      (es : List Event) → (process_events msm es (new_machine msm)).last_known_state ≢ completing
  unfolding new_machine
  process_events-ne-completing es c =
      shown-ne-completing _
        (process_events-InSync es (new_machine msm) (ap shown msm.starts_initial) ∙ c)
