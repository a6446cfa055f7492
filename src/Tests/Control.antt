-- ===== src/Tests/Control.antt =====
-- The control plane: its streams, an operator's actions and the store.
use task_orchestrator.Base.{
  ℕ, suc, ℤ, pos, ◌≡◌, refl, inl, inr, String, true, false, List, [], ◌∷◌, length, Option, none,
  some, In, sort_by, add_id, contains, map, ◌+◌, ◌↔◌, ◌>>=◌,
}
use task_orchestrator.Feed.{make_in_memory_workflow_update_feed}
use task_orchestrator.PlanDiff.{RuntimeApiResponse}
use task_orchestrator.ControlPlane.Messages.{
  planned, paused, cancelled, workflow_accepted, task_planned, run_finished, WorkflowSummary,
  WorkflowRecord, WorkflowPlanVersion, AuditEntry, WorkflowEvent, WorkflowEventRecord,
  SubmitWorkflowRequest, ReorchestrateRequest, ActionRequest, ManualInterventionRequest,
}
use task_orchestrator.ControlPlane.Store.{
  Row, IdempotencyRow, SqliteWorkflowStore, get_workflow, get_idempotency_record, list_events,
}
use task_orchestrator.ControlPlane.Storage.{prune_stale_boot_data}
use task_orchestrator.ControlPlane.Service.{
  WorkflowRuntimeService, ControlPlanService, pause_workflow, resume_workflow, cancel_workflow,
  resumed_state,
}
use task_orchestrator.ControlPlane.Streams.{stream_submit_workflow, stream_reorchestrate}
use task_orchestrator.ControlPlane.Events.{make_response_event}
use task_orchestrator.ControlPlane.Consistent.{IsConsistent, Ends, stream_reorchestrate-Ends}
use task_orchestrator.ControlPlane.Submitted.{stream_submit_workflow-Ends}
use task_orchestrator.ControlPlane.Calls.{
  apply_manual_intervention, recover_active_workflows, get_workflow_history,
}
use task_orchestrator.ControlPlane.Intervened.{Intervenes, apply_manual_intervention-Intervenes}
use task_orchestrator.ControlPlane.Actions.{Acts, actions-Acts}
use task_orchestrator.ControlPlane.Refused.{Stops, pause_workflow-Stops}
use task_orchestrator.ControlPlane.Replayed.{again_events, stream_submit_workflow-again}
use task_orchestrator.ControlPlane.Pruned.{
  pruned, result, IsLeft, IsLeftKey, prune_stale_boot_data-exact,
}

abbrev ticking : ℕ → ℤ
ticking n = pos n

abbrev good_response : RuntimeApiResponse
good_response = record {
  ok = true;
  result = record {
    ok = true;
    capacity_issue = false;
    assignments = [];
    unfulfilled_task_ids = [];
    error_message = "";
  };
  error_message = "";
}

abbrev accepted : String → WorkflowEvent
accepted id = record (make_response_event workflow_accepted id good_response "") { response = none }

-- A runtime that accepts what it is given and plans it, and counts its calls.
abbrev planning_runtime : WorkflowRuntimeService ℕ String Unit Unit
planning_runtime = record {
  submit_workflow = λ request n. (good_response, suc n);
  stream_submit_workflow = λ request n. (
    accepted request.config.id
        ∷ make_response_event run_finished request.config.id good_response "done"
        ∷ [],
    suc n,
  );
  stream_reorchestrate = λ request n.
      (make_response_event task_planned request.workflow_id good_response "again" ∷ [], suc n);
}

abbrev fingerprint_submit : SubmitWorkflowRequest String Unit → String
fingerprint_submit request = request.config.definition

abbrev fingerprint_reorchestrate : ReorchestrateRequest Unit Unit → String
fingerprint_reorchestrate request = request.workflow_id

abbrev empty_store : SqliteWorkflowStore String
empty_store = record {
  current_boot_id = "boot";
  workflow_records = [];
  workflow_events = [];
  workflow_plan_versions = [];
  workflow_audit_entries = [];
  idempotency_records = [];
}

abbrev new_service : ControlPlanService ℕ String
new_service = record {
  runtime = 0;
  store = empty_store;
  feed = some (make_in_memory_workflow_update_feed 8);
  hydrated_workflows = [];
  readings = 0;
}

abbrev submission : SubmitWorkflowRequest String Unit
submission = record {
  config = record { id = "w"; definition = "two tasks" };
  auth = tt;
  replace_existing = none;
  idempotency_key = some "k";
}

abbrev reorchestration : ReorchestrateRequest Unit Unit
reorchestration = record {
  workflow_id = "w";
  overrides = tt;
  auth = tt;
  trigger_reorchestration = some true;
  idempotency_key = none;
  expected_plan_version = some (pos 3);
}

abbrev action : ActionRequest
action = record { workflow_id = "w"; actor = ""; reason = "maintenance" }

abbrev stored_record : WorkflowRecord String
stored_record = record {
  summary = record {
    workflow_id = "w";
    state = planned;
    created_at_unix_ms = pos 1;
    updated_at_unix_ms = pos 2;
    latest_plan_version = 1;
    total_event_count = 2;
    total_audit_entry_count = 0;
    last_error_message = "";
  };
  config = record { id = "w"; definition = "two tasks" };
  latest_response = some good_response;
}

abbrev stored_event : ℕ → Row WorkflowEventRecord
stored_event n = record {
  workflow_id = "w";
  boot_id = "earlier";
  message = record { sequence = n; recorded_at_unix_ms = pos n; event = accepted "w" };
}

-- A store that an earlier boot has written.
abbrev earlier_store : SqliteWorkflowStore String
earlier_store = record empty_store {
  workflow_records = stored_record ∷ [];
  workflow_events = stored_event 1 ∷ stored_event 2 ∷ [];
  workflow_plan_versions =
      record {
        workflow_id = "w";
        boot_id = "earlier";
        message = record { version = 1; recorded_at_unix_ms = pos 2; response = good_response };
      }
      ∷ [];
}

abbrev earlier_service : ControlPlanService ℕ String
earlier_service = record new_service { store = earlier_store }

empty_store-IsConsistent : IsConsistent "w" empty_store
unfolding get_workflow
empty_store-IsConsistent = record { of_events = refl; of_plans = refl; of_audits = refl }

earlier_store-found : get_workflow "w" earlier_store ≡ some stored_record
unfolding get_workflow
earlier_store-found = refl

earlier_store-IsConsistent : IsConsistent "w" earlier_store
unfolding get_workflow
earlier_store-IsConsistent = record { of_events = refl; of_plans = refl; of_audits = refl }

empty_store-missing : get_workflow "w" empty_store ≡ none
unfolding get_workflow
empty_store-missing = refl

empty_store-unknown : get_idempotency_record "k" empty_store ≡ none
unfolding get_idempotency_record
empty_store-unknown = refl

abbrev planned_events : List WorkflowEvent
planned_events = accepted "w" ∷ make_response_event run_finished "w" good_response "done" ∷ []

abbrev submitting : Option (ControlPlanService ℕ String × List WorkflowEvent)
submitting =
    stream_submit_workflow ticking planning_runtime fingerprint_submit fingerprint_reorchestrate
      submission new_service

abbrev service_of :
    Option (ControlPlanService ℕ String × List WorkflowEvent) → ControlPlanService ℕ String
service_of none = new_service
service_of (some (s, events)) = s

abbrev submitted_service : ControlPlanService ℕ String
submitted_service = service_of submitting

submitting-is : submitting ≡ some (submitted_service, planned_events)
unfolding stream_submit_workflow make_response_event
submitting-is = refl

-- The events and the plan are stored.
submitted_sequences :
    map WorkflowEventRecord.sequence (list_events "w" 0 submitted_service.store) ≡ 1 ∷ 2 ∷ []
unfolding stream_submit_workflow list_events sort_by
submitted_sequences = refl

stream_submit_workflow-Ends_example :
    Ends (planning_runtime.stream_submit_workflow submission) "w" new_service submitting
stream_submit_workflow-Ends_example =
    stream_submit_workflow-Ends ticking planning_runtime fingerprint_submit
      fingerprint_reorchestrate submission new_service (inr empty_store-missing)
      empty_store-IsConsistent

abbrev expecting : ReorchestrateRequest Unit Unit
expecting = record reorchestration { expected_plan_version = some (pos 1) }

stream_reorchestrate-Ends_example :
    Ends (planning_runtime.stream_reorchestrate expecting) "w" earlier_service (
      stream_reorchestrate ticking planning_runtime fingerprint_submit fingerprint_reorchestrate
        expecting earlier_service)
stream_reorchestrate-Ends_example =
    stream_reorchestrate-Ends ticking planning_runtime fingerprint_submit fingerprint_reorchestrate
      expecting earlier_service earlier_store-IsConsistent

stream_submit_workflow-again_example :
    stream_submit_workflow ticking planning_runtime fingerprint_submit fingerprint_reorchestrate
      submission submitted_service
    ≡ some (
      submitted_service,
      again_events ticking planning_runtime fingerprint_submit fingerprint_reorchestrate submission
          submission planned_events,
    )
unfolding make_response_event
stream_submit_workflow-again_example =
    stream_submit_workflow-again ticking planning_runtime fingerprint_submit
      fingerprint_reorchestrate submission submission "k" new_service submitted_service
      planned_events refl refl refl empty_store-unknown (inr (inl refl)) submitting-is

pause_workflow-Stops_example :
    Stops ticking planning_runtime fingerprint_submit fingerprint_reorchestrate
      "Workflow is paused. Resume it before re-orchestrating." reorchestration
      (pause_workflow ticking action earlier_service)
    × Stops ticking planning_runtime fingerprint_submit fingerprint_reorchestrate
        "Workflow is cancelled and cannot be re-orchestrated." reorchestration
        (cancel_workflow ticking action earlier_service)
pause_workflow-Stops_example =
    pause_workflow-Stops ticking planning_runtime fingerprint_submit fingerprint_reorchestrate
      action reorchestration stored_record earlier_service earlier_store-IsConsistent
      earlier_store-found refl

actions-Acts_example :
    Acts "w" earlier_service (λ w. paused) (pause_workflow ticking action earlier_service)
    × Acts "w" earlier_service resumed_state (resume_workflow ticking action earlier_service)
    × Acts "w" earlier_service (λ w. cancelled) (cancel_workflow ticking action earlier_service)
actions-Acts_example = actions-Acts ticking action earlier_service earlier_store-IsConsistent

prune_stale_boot_data-exact_example :
    ((r : Row WorkflowEventRecord)
      → In r (pruned (pos 9) earlier_store).workflow_events
        ↔ IsLeft
            (pos 9)
            earlier_store
            WorkflowEventRecord.sequence
            WorkflowEventRecord.recorded_at_unix_ms
            WorkflowSummary.total_event_count
            r
            (stored_event 1 ∷ stored_event 2 ∷ []))
    × ((r : Row WorkflowPlanVersion)
        → In r (pruned (pos 9) earlier_store).workflow_plan_versions
          ↔ IsLeft
              (pos 9)
              earlier_store
              WorkflowPlanVersion.version
              WorkflowPlanVersion.recorded_at_unix_ms
              WorkflowSummary.latest_plan_version
              r
              earlier_store.workflow_plan_versions)
    × ((r : Row AuditEntry)
        → In r (pruned (pos 9) earlier_store).workflow_audit_entries
          ↔ IsLeft
              (pos 9)
              earlier_store
              AuditEntry.sequence
              AuditEntry.recorded_at_unix_ms
              WorkflowSummary.total_audit_entry_count
              r
              [])
    × ((r : IdempotencyRow)
        → In r (pruned (pos 9) earlier_store).idempotency_records
          ↔ IsLeftKey (pos 9) earlier_store r)
    × (2
        ≡ length (pruned (pos 9) earlier_store).workflow_events
          + (result (pos 9) earlier_store).pruned_event_rows)
    × (1
        ≡ length (pruned (pos 9) earlier_store).workflow_plan_versions
          + (result (pos 9) earlier_store).pruned_plan_version_rows)
    × (0
        ≡ length (pruned (pos 9) earlier_store).workflow_audit_entries
          + (result (pos 9) earlier_store).pruned_audit_entry_rows)
    × (0
        ≡ length (pruned (pos 9) earlier_store).idempotency_records
          + (result (pos 9) earlier_store).pruned_idempotency_rows)
prune_stale_boot_data-exact_example = prune_stale_boot_data-exact (pos 9) earlier_store

-- The older event goes.
one_event_pruned : (result (pos 9) earlier_store).pruned_event_rows ≡ 1
unfolding prune_stale_boot_data
one_event_pruned = refl

abbrev intervention : ManualInterventionRequest Unit Unit
intervention = record {
  workflow_id = "w";
  actor = "operator";
  note = "";
  overrides = tt;
  trigger_reorchestration = true;
  auth = tt;
  idempotency_key = none;
  expected_plan_version = none;
}

apply_manual_intervention-Intervenes_example :
    Intervenes ticking planning_runtime fingerprint_submit fingerprint_reorchestrate "w" (
      apply_manual_intervention ticking planning_runtime fingerprint_submit
        fingerprint_reorchestrate intervention earlier_service)
apply_manual_intervention-Intervenes_example =
    apply_manual_intervention-Intervenes ticking planning_runtime fingerprint_submit
      fingerprint_reorchestrate intervention earlier_service earlier_store-IsConsistent

-- Recovery gives the runtime the workflow that the earlier boot has stored.
recovered_workflows :
    ◌>>=◌ {B = ℕ × List String}
      (recover_active_workflows ticking planning_runtime tt earlier_service)
      (λ s. some (s.runtime, s.hydrated_workflows))
    ≡ some (1, "w" ∷ [])
unfolding recover_active_workflows sort_by add_id contains
recovered_workflows = refl

history_events :
    length
      (get_workflow_history
        (record {
          workflow_id = "w";
          max_events = pos 1;
          max_plan_versions = pos 0;
          max_audit_entries = pos 0;
        })
        earlier_store).events
    ≡ 1
unfolding get_workflow_history sort_by
history_events = refl
