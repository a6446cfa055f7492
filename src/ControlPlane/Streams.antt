-- ===== src/ControlPlane/Streams.antt =====
-- control_plane/src/service/control_plan_service.cpp: submitting and re-orchestrating a workflow.
use task_orchestrator.Base.{
  ℕ, ℤ, pos, eqb_ℤ, String, ◌==◌, Bool, true, false, not, List, [], ◌∷◌, Option, none, some,
  contains, add_id, or_default, if◌then◌else◌, ◌>>=◌,
}
use task_orchestrator.PlanDiff.{RuntimeApiResponse}
use task_orchestrator.ControlPlane.Messages.{
  WorkflowLifecycleState, unspecified, submitted, paused, cancelled, run_finished, WorkflowConfig,
  WorkflowRecord, WorkflowEvent, IdempotencyRecord, SubmitWorkflowRequest, ReorchestrateRequest,
}
use task_orchestrator.ControlPlane.Store.{
  SqliteWorkflowStore, upsert_workflow, get_workflow, get_idempotency_record,
}
use task_orchestrator.ControlPlane.Service.{
  WorkflowRuntimeService, ControlPlanService, publish_workflow_update, with_store, read_clock,
}
use task_orchestrator.ControlPlane.Events.{
  make_runtime_error, make_response_event, rejection, persist_all,
}

module _ {R C A O : Type 0} (clock : ℕ → ℤ) (runtime : WorkflowRuntimeService R C A O)
    (fingerprint_submit : SubmitWorkflowRequest C A → String)
    (fingerprint_reorchestrate : ReorchestrateRequest A O → String) where
  abbrev pub Streamed : Type 0
  Streamed = Option (ControlPlanService R C × List WorkflowEvent)

  -- The record of the key, where there is one and the key is not empty.
  abbrev pub cached : String → ControlPlanService R C → Option IdempotencyRecord
  cached key s = if key == "" then none else get_idempotency_record key s.store

  -- A request whose key is known: it is replayed, or rejected where the payload is another.
  unfoldable pub replay :
      String → String → String → IdempotencyRecord → ControlPlanService R C → Streamed
  unfolding make_runtime_error make_response_event
  replay id fingerprint reuse existing s =
      if not (existing.request_fingerprint == fingerprint)
      then some (s, rejection id (make_runtime_error reuse))
      else some (
        s,
        make_response_event run_finished id existing.cached_response
              "Idempotent replay served from durable control plane."
            ∷ [],
      )

  abbrev pub new_record : String → ℤ → WorkflowConfig C → WorkflowRecord C
  new_record id now config = record {
    summary = record {
      workflow_id = id;
      state = unspecified;
      created_at_unix_ms = now;
      updated_at_unix_ms = pos 0;
      latest_plan_version = 0;
      total_event_count = 0;
      total_audit_entry_count = 0;
      last_error_message = "";
    };
    config = config;
    latest_response = none;
  }

  abbrev pub replaced :
      SubmitWorkflowRequest C A → SqliteWorkflowStore C → Option (WorkflowRecord C)
  replaced request store =
      if or_default false request.replace_existing
      then get_workflow request.config.id store
      else none

  abbrev pub with_id : String → ℤ → WorkflowRecord C → WorkflowRecord C
  with_id id now w =
      if w.summary.workflow_id == ""
      then record w { summary = record (w.summary) { workflow_id = id; created_at_unix_ms = now } }
      else w

  -- The record that a submission starts from: the stored one only where it is to be replaced.
  unfoldable pub first_record :
      SubmitWorkflowRequest C A → ℤ → SqliteWorkflowStore C → WorkflowRecord C
  unfolding get_workflow
  first_record request now store = elim (replaced request store) [
    | none ↦ new_record request.config.id now request.config
    | some w ↦ with_id request.config.id now w
  ]

  abbrev pub accepted_record : SubmitWorkflowRequest C A → ℤ → WorkflowRecord C → WorkflowRecord C
  accepted_record request now w = record w {
    summary = record (w.summary) {
      state = submitted;
      updated_at_unix_ms = now;
      last_error_message = "";
    };
    config = request.config;
  }

  -- A submission that is no replay.
  unfoldable pub submit_anew :
      SubmitWorkflowRequest C A → String → String → ControlPlanService R C → Streamed
  unfolding first_record persist_all upsert_workflow publish_workflow_update
  submit_anew request key fingerprint s =
      let id = request.config.id in
      let (now, s1) = read_clock clock s in
      let w = accepted_record request now (first_record request now s1.store) in
      let s2 = publish_workflow_update id (with_store (upsert_workflow w s1.store) s1) in
      let (events, runtime') = runtime.stream_submit_workflow request s2.runtime in
      let s3 : ControlPlanService R C = record s2 {
        hydrated_workflows = add_id id s2.hydrated_workflows;
        runtime = runtime';
      } in
      do s4 ← persist_all clock id key fingerprint events w s3; some (s4, events)

  unfoldable pub stream_submit_workflow :
      SubmitWorkflowRequest C A → ControlPlanService R C → Streamed
  unfolding get_idempotency_record replay submit_anew
  stream_submit_workflow request s =
      let key = or_default "" request.idempotency_key in
      let fingerprint = fingerprint_submit request in
      elim (cached key s) [
        | none ↦ submit_anew request key fingerprint s
        | some existing ↦
            replay request.config.id fingerprint
              "Idempotency key was reused for a different request payload." existing s
      ]

  abbrev pub is_stale_version : Option ℤ → WorkflowRecord C → Bool
  is_stale_version none w = false
  is_stale_version (some expected) w = not (eqb_ℤ expected (pos w.summary.latest_plan_version))

  -- Why a record is not re-orchestrated, in the order of the tests.
  unfoldable pub refusal : WorkflowLifecycleState → Bool → Option String
  refusal paused stale = some "Workflow is paused. Resume it before re-orchestrating."
  refusal cancelled stale = some "Workflow is cancelled and cannot be re-orchestrated."
  refusal state stale =
      if stale
      then some "Expected plan version does not match the durable control-plane record."
      else none

  abbrev pub replay_request :
      ReorchestrateRequest A O → WorkflowRecord C → SubmitWorkflowRequest C A
  replay_request request w = record {
    config = w.config;
    auth = request.auth;
    replace_existing = some true;
    idempotency_key = none;
  }

  -- The runtime is given the workflow where it does not have it yet, and may refuse.
  unfoldable pub hydrate :
      ReorchestrateRequest A O
      → WorkflowRecord C
      → ControlPlanService R C
      → ControlPlanService R C × Option RuntimeApiResponse
  hydrate request w s =
      if contains request.workflow_id s.hydrated_workflows
      then (s, none)
      else let (response, runtime') =
          runtime.submit_workflow (replay_request request w) s.runtime in
        if response.ok
        then (
          record s {
            runtime = runtime';
            hydrated_workflows = add_id request.workflow_id s.hydrated_workflows;
          },
          none,
        )
        else (record s { runtime = runtime' }, some response)

  -- After the tests and the hydration.
  unfoldable pub reorchestrate_hydrated :
      ReorchestrateRequest A O → WorkflowRecord C → ControlPlanService R C → Streamed
  unfolding get_idempotency_record replay persist_all
  reorchestrate_hydrated request w s =
      let id = request.workflow_id in
      let key = or_default "" request.idempotency_key in
      let fingerprint = fingerprint_reorchestrate request in
      elim (cached key s) [
        | some existing ↦
            replay id fingerprint
              "Idempotency key was reused for a different re-orchestration payload." existing s
        | none ↦
            let (events, runtime') = runtime.stream_reorchestrate request s.runtime in
            do
              s' ← persist_all clock id key fingerprint events w (record s { runtime = runtime' })
              some (s', events)
      ]

  unfoldable pub reorchestrate_record :
      ReorchestrateRequest A O → WorkflowRecord C → ControlPlanService R C → Streamed
  unfolding refusal hydrate reorchestrate_hydrated
  reorchestrate_record request w s =
      elim (refusal w.summary.state (is_stale_version request.expected_plan_version w)) [
        | some message ↦ some (s, rejection request.workflow_id (make_runtime_error message))
        | none ↦
            let (s', refused) = hydrate request w s in
            elim refused [
              | some response ↦ some (s', rejection request.workflow_id response)
              | none ↦ reorchestrate_hydrated request w s'
            ]
      ]

  unfoldable pub stream_reorchestrate : ReorchestrateRequest A O → ControlPlanService R C → Streamed
  unfolding get_workflow reorchestrate_record
  stream_reorchestrate request s = elim (get_workflow request.workflow_id s.store) [
    | none ↦ some (
      s,
      rejection request.workflow_id
          (make_runtime_error "Workflow record was not found in the control plane."),
    )
    | some w ↦ reorchestrate_record request w s
  ]
