-- ===== src/Fsm.antt =====
-- task_orchestrator/include/task_orchestrator/core/planner_fsm.hpp and
-- task_orchestrator/src/core/planner_fsm.cpp: the planner's state machine, a wrapper that keeps the
-- state it last knew beside a Boost.MSM machine. Boost.MSM is a parameter: `Msm`.
pub mod Sync
pub mod Callbacks
use task_orchestrator.Base.{
  ◌≡◌, Bool, true, false, ◌||◌, ◌&&◌, Option, none, some, List, [], ◌∷◌, if◌then◌else◌,
}

pub data PlannerState : Type 0 where
  idle planning dispatching running completing : PlannerState

pub data Event : Type 0 where
  start_planning schedule_ready dispatch_complete phase_complete all_phases_complete tick : Event

-- The four front-end state types of the transition table.
pub data MsmState : Type 0 where
  msm_idle msm_planning msm_dispatching msm_running : MsmState

abbrev pub Row : Type 0
Row = MsmState × Event × MsmState

unfoldable pub transition_table : List Row
transition_table =
    (msm_idle, start_planning, msm_planning)
    ∷ (msm_running, start_planning, msm_planning)
    ∷ (msm_dispatching, start_planning, msm_planning)
    ∷ (msm_planning, start_planning, msm_planning)
    ∷ (msm_planning, schedule_ready, msm_dispatching)
    ∷ (msm_dispatching, dispatch_complete, msm_running)
    ∷ (msm_running, phase_complete, msm_running)
    ∷ (msm_running, all_phases_complete, msm_idle)
    ∷ (msm_planning, phase_complete, msm_running)
    ∷ (msm_dispatching, phase_complete, msm_running)
    ∷ (msm_planning, tick, msm_planning)
    ∷ (msm_idle, tick, msm_idle)
    ∷ (msm_running, tick, msm_running)
    ∷ []

abbrev same_msm : MsmState → MsmState → Bool
same_msm msm_idle msm_idle = true
same_msm msm_planning msm_planning = true
same_msm msm_dispatching msm_dispatching = true
same_msm msm_running msm_running = true
same_msm _ _ = false

abbrev same_event : Event → Event → Bool
same_event start_planning start_planning = true
same_event schedule_ready schedule_ready = true
same_event dispatch_complete dispatch_complete = true
same_event phase_complete phase_complete = true
same_event all_phases_complete all_phases_complete = true
same_event tick tick = true
same_event _ _ = false

-- The target of a table's row for a state and an event.
abbrev pub target : List Row → MsmState → Event → Option MsmState
target [] m e = none
target ((a, b, c) ∷ rows) m e = if same_msm a m && same_event b e then some c else target rows m e

-- What is used of `msm::back::state_machine`: it starts in the initial state, and an event with a
-- row for the current state leads to the row's target. Of other events nothing is assumed.
pub record Msm (M : Type 0) : Type 0 where
  pub started : M
  pub fire : Event → M → M
  pub current : M → MsmState
  pub starts_initial : current started ≡ msm_idle
  pub follows_rows :
      (m : M) (e : Event) (t : MsmState)
      → target transition_table (current m) e ≡ some t
      → current (fire e m) ≡ t

-- `callback` tells whether one is set; `calls` are the calls made of it, newest first.
pub record Machine (M : Type 0) : Type 0 where
  pub fsm : M
  pub callback : Bool
  pub calls : List (PlannerState × PlannerState)
  pub last_known_state : PlannerState

abbrev pub same_state : PlannerState → PlannerState → Bool
same_state idle idle = true
same_state planning planning = true
same_state dispatching dispatching = true
same_state running running = true
same_state completing completing = true
same_state _ _ = false

-- The early returns: the states in which each event is handled.
unfoldable pub accepts : Event → PlannerState → Bool
accepts start_planning s =
    same_state s idle || same_state s planning || same_state s dispatching || same_state s running
accepts schedule_ready s = same_state s planning
accepts dispatch_complete s = same_state s dispatching
accepts phase_complete s = same_state s planning || same_state s dispatching || same_state s running
accepts all_phases_complete s = same_state s running
accepts tick s = same_state s idle || same_state s planning || same_state s running

-- The state that a handled event puts the wrapper in.
abbrev pub next_state : Event → PlannerState → PlannerState
next_state start_planning s = planning
next_state schedule_ready s = dispatching
next_state dispatch_complete s = running
next_state phase_complete s = running
next_state all_phases_complete s = idle
next_state tick s = s

module _ {M : Type 0} where
  unfoldable pub set_state_change_callback : Machine M → Machine M
  set_state_change_callback m = record m { callback = true }

  update_state : PlannerState → Machine M → Machine M
  update_state next m = if same_state next m.last_known_state then m else record m {
    calls = if m.callback then (next, m.last_known_state) ∷ m.calls else m.calls;
    last_known_state = next;
  }

  module _ (msm : Msm M) where
    unfoldable pub new_machine : Machine M
    new_machine = record {
      fsm = msm.started;
      callback = false;
      calls = [];
      last_known_state = idle;
    }

    -- The six overloads of `process_event`. `Tick` reaches the machine and updates nothing else.
    unfoldable pub process_event : Event → Machine M → Machine M
    unfolding accepts update_state
    process_event tick m =
        if accepts tick m.last_known_state then record m { fsm = msm.fire tick m.fsm } else m
    process_event e m =
        if accepts e m.last_known_state
        then update_state (next_state e m.last_known_state) (record m { fsm = msm.fire e m.fsm })
        else m

    unfoldable pub process_events : List Event → Machine M → Machine M
    process_events [] m = m
    process_events (e ∷ es) m = process_events es (process_event e m)
