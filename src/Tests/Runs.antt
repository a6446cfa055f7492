-- ===== src/Tests/Runs.antt =====
-- Runs of the planner on the sample workflow.
use task_orchestrator.Base.{
  ℤ, pos, ◌≤ℤ◌, eq_of_parts, +ℤ_parts, ◌≡◌, refl, sym, ◌∙◌, ap, inl, inr, String, true, ◌&&◌, ◌||◌,
  List, [], ◌∷◌, some, any_of, contains, lookup, lookup-assign, Bool-cases, arith, ◌==◌,
}
use mathlib.Core.Option.{some-injective}
use task_orchestrator.Fsm.{dispatching, running, MsmState, new_machine, set_state_change_callback}
use task_orchestrator.Actor.{Actor}
use task_orchestrator.Workflow.{Workflow, process, process_for_task, owner_of}
use task_orchestrator.Scheduler.Types.{Assignment, initial_workflow_state, add, get}
use task_orchestrator.Orchestrator.{set_workflow, Impl, task_demand, dispatch_all}
use task_orchestrator.Orchestrator.Planning.{new_orchestrator, tick}
use task_orchestrator.Orchestrator.Calls.{
  Call, to_set_workflow, to_register_actor, to_start, to_tick, to_fail, to_complete, perform_all,
}
use task_orchestrator.Orchestrator.Dispatch.{is_due, dispatch_all-contains}
use task_orchestrator.Orchestrator.Tasks.{IsConsistent, initial-IsConsistent}
use task_orchestrator.Orchestrator.Reached.{reached-IsConsistent}
use task_orchestrator.Orchestrator.Accounts.{Kept, perform_all-Kept}
use task_orchestrator.Orchestrator.Control.{HasPlanned, tick-HasPlanned, set_workflow-HasDispatched}
use task_orchestrator.Tests.Samples.{
  whole_numbers, table_machine, workshop, cut, first_phase, no_actors, ann, team,
}

abbrev first_run : List (Call ℤ)
first_run =
    to_set_workflow workshop
    ∷ to_register_actor ann
    ∷ to_start
    ∷ to_tick (pos 0)
    ∷ to_fail "cut" true
    ∷ to_tick (pos 1)
    ∷ to_tick (pos 2)
    ∷ to_complete "cut" (pos 5)
    ∷ []

reached-IsConsistent_example :
    IsConsistent
      (perform_all table_machine first_run (new_orchestrator table_machine)).workflow_state
reached-IsConsistent_example = reached-IsConsistent table_machine first_run

abbrev cut_now : List Assignment
cut_now =
    record { task_id = "cut"; actor_id = "ann"; start_time = pos 0 }
    ∷ record { task_id = "glue"; actor_id = "ann"; start_time = pos 3 }
    ∷ []

dispatch_all-contains_example :
    contains "cut"
      (dispatch_all workshop (pos 3) cut_now (initial_workflow_state, team)).0.assigned_tasks
    ≡ (contains "cut" initial_workflow_state.assigned_tasks
        || any_of
            (λ a. a.task_id == "cut" && is_due workshop (pos 3) initial_workflow_state a)
            cut_now)
dispatch_all-contains_example =
    dispatch_all-contains workshop (pos 3) cut_now (initial_workflow_state, team) "cut"

-- A workflow of one task, and its one actor.
abbrev one_task : Workflow ℤ
one_task = record {
  id = "one";
  phases = ("build", first_phase) ∷ [];
  processes = ("cut", cut) ∷ [];
}

abbrev solo : Impl ℤ MsmState
solo = record (new_orchestrator table_machine) {
  workflow = one_task;
  registry = add ann no_actors;
  started = true;
}

solo_load :
    (id : String) (actor : Actor ℤ)
    → get id (add ann no_actors) ≡ some actor
    → actor.current_load ≡ pos 0
unfolding get add
solo_load id actor h = elim (Bool-cases ("ann" == id)) [
  | inl e ↦
      ap (λ (x : Actor ℤ). x.current_load)
        (sym (some-injective ann actor (rw (lookup-assign "ann" id ann [], e) at h)))
  | inr e ↦ absurd (no_one (rw (lookup-assign "ann" id ann [], e) at h))
]
  where
    no_one : lookup {V = Actor ℤ} id [] ≡ some actor → ⊥
    no_one k = unfold lookup in cc

one_task_demand : (t : String) → pos 0 ≤ℤ task_demand one_task t
unfolding process_for_task process lookup owner_of contains
one_task_demand t = elim (Bool-cases ("cut" == t)) [
  | inl e ↦ rw (e, task_demand) (omega arith)
  | inr e ↦ rw (e, task_demand) (omega arith)
]

abbrev solo_calls : List (Call ℤ)
solo_calls = to_start ∷ to_tick (pos 0) ∷ to_complete "cut" (pos 3) ∷ []

perform_all-Kept_example :
    Kept table_machine (λ id. pos 0) (λ id. omega arith) (perform_all table_machine solo_calls solo)
unfolding new_orchestrator initial_workflow_state
perform_all-Kept_example =
    perform_all-Kept table_machine (λ id. pos 0) (λ id. omega arith) solo_calls solo
      (refl, (refl, (refl, tt)))
      (
        initial-IsConsistent,
        tt,
        (λ id actor registered.
            solo_load id actor registered
            ∙ sym (omega (arith, +ℤ_parts (pos 0) (pos 0), eq_of_parts))),
        one_task_demand,
      )

tick-HasPlanned_example : HasPlanned table_machine (pos 2) solo (tick table_machine (pos 2) solo)
unfolding new_orchestrator new_machine set_state_change_callback
tick-HasPlanned_example = tick-HasPlanned table_machine (pos 2) solo refl (λ e. cc) refl

-- The machine dispatches a schedule of one assignment.
abbrev ready_solo : Impl ℤ MsmState
ready_solo = record solo {
  fsm = record solo.fsm { last_known_state = dispatching };
  latest_schedule = record {
    ok = true;
    assignments = cut_now;
    ranking_decision_criterion_index = [];
    error_message = "";
  };
}

-- The planner runs on the schedule of `cut_now` when it is given the other workflow.
abbrev running_solo : Impl ℤ MsmState
running_solo = record ready_solo { fsm = record ready_solo.fsm { last_known_state = running } }

set_workflow-HasDispatched_example :
    (tick table_machine (pos 2) (set_workflow workshop running_solo)).workflow_state
    ≡ (dispatch_all workshop (pos 2) cut_now (initial_workflow_state, add ann no_actors)).0
unfolding new_orchestrator
set_workflow-HasDispatched_example =
    set_workflow-HasDispatched table_machine workshop (pos 2) running_solo refl refl refl
