-- ===== src/ControlPlane/Calls.antt =====
-- control_plane/src/service/control_plan_service.cpp: what the service answers from the store, the calls
-- that read a stream to its end, manual intervention, and recovery after a restart.
use task_orchestrator.Base.{
  ℕ, suc, ◌-◌, ℤ, pos, negsuc, eqb_ℤ, String, Bool, true, false, List, [], ◌∷◌, Option, none, some,
  find_if, add_id, if◌then◌else◌, ◌>>=◌,
}
use task_orchestrator.PlanDiff.{RuntimeApiResponse, diff_plan_versions}
use task_orchestrator.ControlPlane.Messages.{
  WorkflowLifecycleState, unspecified, submitted, planning, planned, paused, cancelled, failed,
  recovering, WorkflowRecord, WorkflowPlanVersion, SubmitWorkflowRequest, ReorchestrateRequest,
  WorkflowActionResponse, ManualInterventionRequest, GetWorkflowHistoryRequest,
  GetWorkflowHistoryResponse, GetPlanDiffRequest, GetPlanDiffResponse,
}
use task_orchestrator.ControlPlane.Store.{
  SqliteWorkflowStore, get_workflow, list_events, list_plan_versions, list_audit_entries,
  list_all_workflows,
}
use task_orchestrator.ControlPlane.Service.{
  WorkflowRuntimeService, ControlPlanService, record_audit, on_workflow, read_clock, not_found,
  audit_of,
}
use task_orchestrator.ControlPlane.Streams.{stream_submit_workflow, stream_reorchestrate}
use task_orchestrator.ControlPlane.Events.{consume_final_response}

-- `static_cast<std::size_t>` of an int32.
abbrev pub as_size : ℤ → ℕ
as_size (pos n) = n
as_size (negsuc n) = 18446744073709551616 - suc n

unfoldable pub get_workflow_history :
    {C : Type 0} → GetWorkflowHistoryRequest → SqliteWorkflowStore C → GetWorkflowHistoryResponse C
unfolding get_workflow list_events list_plan_versions list_audit_entries
get_workflow_history request store = elim (get_workflow request.workflow_id store) [
  | none ↦ record {
    ok = false;
    workflow = none;
    events = [];
    plan_versions = [];
    audit_entries = [];
    error_message = not_found;
  }
  | some w ↦ record {
    ok = true;
    workflow = some w;
    events = list_events request.workflow_id (as_size request.max_events) store;
    plan_versions =
        list_plan_versions request.workflow_id (as_size request.max_plan_versions) store;
    audit_entries =
        list_audit_entries request.workflow_id (as_size request.max_audit_entries) store;
    error_message = "";
  }
]

unfoldable pub find_version : ℤ → List WorkflowPlanVersion → Option WorkflowPlanVersion
find_version version plans =
    find_if (λ (p : WorkflowPlanVersion). eqb_ℤ (pos p.version) version) plans

abbrev pub diff_of : Option WorkflowPlanVersion → Option WorkflowPlanVersion → GetPlanDiffResponse
diff_of (some from) (some to) = record {
  ok = true;
  diff = some (diff_plan_versions from.response to.response);
  error_message = "";
}
diff_of none to = record {
  ok = false;
  diff = none;
  error_message = "Requested plan versions were not found.";
}
diff_of (some from) none = record {
  ok = false;
  diff = none;
  error_message = "Requested plan versions were not found.";
}

unfoldable pub get_plan_diff :
    {C : Type 0} → GetPlanDiffRequest → SqliteWorkflowStore C → GetPlanDiffResponse
unfolding list_plan_versions find_version
get_plan_diff request store =
    let plans = list_plan_versions request.workflow_id 0 store in
    diff_of (find_version request.from_plan_version plans)
      (find_version request.to_plan_version plans)

module _ {R C A O : Type 0} (clock : ℕ → ℤ) (runtime : WorkflowRuntimeService R C A O)
    (fingerprint_submit : SubmitWorkflowRequest C A → String)
    (fingerprint_reorchestrate : ReorchestrateRequest A O → String) where
  unfoldable pub submit_workflow :
      SubmitWorkflowRequest C A
      → ControlPlanService R C
      → Option (ControlPlanService R C × RuntimeApiResponse)
  unfolding stream_submit_workflow consume_final_response
  submit_workflow request s = do
    streamed ←
        stream_submit_workflow clock runtime fingerprint_submit fingerprint_reorchestrate request s
    some (streamed.0, consume_final_response streamed.1)

  unfoldable pub reorchestrate :
      ReorchestrateRequest A O
      → ControlPlanService R C
      → Option (ControlPlanService R C × RuntimeApiResponse)
  unfolding stream_reorchestrate consume_final_response
  reorchestrate request s = do
    streamed ←
        stream_reorchestrate clock runtime fingerprint_submit fingerprint_reorchestrate request s
    some (streamed.0, consume_final_response streamed.1)

  abbrev pub reorchestrate_request : ManualInterventionRequest A O → ReorchestrateRequest A O
  reorchestrate_request request = record {
    workflow_id = request.workflow_id;
    overrides = request.overrides;
    auth = request.auth;
    trigger_reorchestration = some request.trigger_reorchestration;
    idempotency_key = request.idempotency_key;
    expected_plan_version = request.expected_plan_version;
  }

  abbrev pub intervention_response :
      String → ControlPlanService R C → RuntimeApiResponse → WorkflowActionResponse C
  intervention_response id s response = record {
    ok = response.ok;
    workflow = get_workflow id s.store;
    error_message = if response.ok then "" else response.error_message;
  }

  -- The record of the workflow is noted to be intervened in, and re-orchestrated.
  unfoldable pub intervene :
      ManualInterventionRequest A O
      → WorkflowRecord C
      → ControlPlanService R C
      → Option (ControlPlanService R C × WorkflowActionResponse C)
  unfolding record_audit reorchestrate get_workflow
  intervene request w s =
      let (now, s1) = read_clock clock s in
      do
        s2 ←
            record_audit request.workflow_id
              (audit_of request.actor "manual_intervention" request.note
                "Manual intervention applied." now w)
              w s1
        done ← reorchestrate (reorchestrate_request request) s2
        some (done.0, intervention_response request.workflow_id done.0 done.1)

  unfoldable pub apply_manual_intervention :
      ManualInterventionRequest A O
      → ControlPlanService R C
      → Option (ControlPlanService R C × WorkflowActionResponse C)
  unfolding on_workflow intervene
  apply_manual_intervention request s = on_workflow request.workflow_id (intervene request) s

-- The states of the workflows that recovery passes over.
abbrev pub is_left_alone : WorkflowLifecycleState → Bool
is_left_alone cancelled = true
is_left_alone failed = true
is_left_alone unspecified = true
is_left_alone submitted = false
is_left_alone planning = false
is_left_alone planned = false
is_left_alone paused = false
is_left_alone recovering = false

module _ {R C A O : Type 0} (clock : ℕ → ℤ) (runtime : WorkflowRuntimeService R C A O)
    (auth : A) where
  abbrev pub internal_recovery_actor : String
  internal_recovery_actor = "control_plane/recovery"

  abbrev pub recovery_request : WorkflowRecord C → SubmitWorkflowRequest C A
  recovery_request w = record {
    config = w.config;
    auth = auth;
    replace_existing = some true;
    idempotency_key = none;
  }

  abbrev pub updated_at : ℤ → WorkflowRecord C → WorkflowRecord C
  updated_at now w = record w { summary = record (w.summary) { updated_at_unix_ms = now } }

  unfoldable pub recover_workflow :
      WorkflowRecord C → ControlPlanService R C → Option (ControlPlanService R C)
  unfolding record_audit
  recover_workflow w s =
      let (now, s1) = read_clock clock s in
      do
        s2 ←
            record_audit w.summary.workflow_id
              (audit_of internal_recovery_actor "recover"
                "Rehydrating workflow state into runtime memory." "" now w)
              (updated_at now w) s1
        some (record s2 {
          runtime = (runtime.submit_workflow (recovery_request w) s2.runtime).1;
          hydrated_workflows = add_id w.summary.workflow_id s2.hydrated_workflows;
        })

  unfoldable pub recover_all :
      List (WorkflowRecord C) → ControlPlanService R C → Option (ControlPlanService R C)
  unfolding recover_workflow
  recover_all [] s = some s
  recover_all (w ∷ ws) s =
      if is_left_alone w.summary.state
      then recover_all ws s
      else do s' ← recover_workflow w s; recover_all ws s'

  unfoldable pub recover_active_workflows : ControlPlanService R C → Option (ControlPlanService R C)
  unfolding list_all_workflows recover_all
  recover_active_workflows s = recover_all (list_all_workflows s.store) s
