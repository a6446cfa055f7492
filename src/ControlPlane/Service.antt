-- ===== src/ControlPlane/Service.antt =====
-- control_plane/src/service/control_plan_service.cpp: the service's state, the operator's actions
-- and what it reads. The runtime service behind it and the clock are parameters. A handler gives none
-- where the store throws.
use task_orchestrator.Base.{
  ℕ, suc, ◌+◌, ℤ, String, ◌==◌, true, false, List, Option, none, some, if◌then◌else◌, ◌>>=◌,
}
use task_orchestrator.Feed.{InMemoryWorkflowUpdateFeed, publish}
use task_orchestrator.PlanDiff.{RuntimeApiResponse}
use task_orchestrator.ControlPlane.Messages.{
  WorkflowLifecycleState, submitted, planned, paused, cancelled, WorkflowRecord, WorkflowEvent,
  AuditEntry, SubmitWorkflowRequest, ReorchestrateRequest, ActionRequest, WorkflowActionResponse,
}
use task_orchestrator.ControlPlane.Store.{
  SqliteWorkflowStore, upsert_workflow, get_workflow, write_audit_entry,
}

-- `protocol::WorkflowRuntimeService`, over its own state: what its calls return, and the events of
-- a stream that is read to its end.
pub record WorkflowRuntimeService (R C A O : Type 0) : Type 0 where
  pub submit_workflow : SubmitWorkflowRequest C A → R → RuntimeApiResponse × R
  pub stream_submit_workflow : SubmitWorkflowRequest C A → R → List WorkflowEvent × R
  pub stream_reorchestrate : ReorchestrateRequest A O → R → List WorkflowEvent × R

-- With how often the clock was read.
pub record ControlPlanService (R C : Type 0) : Type 0 where
  pub runtime : R
  pub store : SqliteWorkflowStore C
  pub feed : Option InMemoryWorkflowUpdateFeed
  pub hydrated_workflows : List String
  pub readings : ℕ

abbrev pub internal_control_actor : String
internal_control_actor = "control_plane"

abbrev pub not_found : String
not_found = "Workflow record not found."

-- `text.empty() ? default : text`.
abbrev pub text_or : String → String → String
text_or default text = if text == "" then default else text

module _ {C : Type 0} where
  abbrev pub action_failed : String → WorkflowActionResponse C
  action_failed message = record { ok = false; workflow = none; error_message = message }

  abbrev pub action_done : WorkflowRecord C → WorkflowActionResponse C
  action_done w = record { ok = true; workflow = some w; error_message = "" }

  abbrev pub with_state : WorkflowLifecycleState → ℤ → WorkflowRecord C → WorkflowRecord C
  with_state state now w = record w {
    summary = record (w.summary) { state = state; updated_at_unix_ms = now };
  }

  abbrev pub counting_audit : ℕ → WorkflowRecord C → WorkflowRecord C
  counting_audit count w = record w {
    summary = record (w.summary) { total_audit_entry_count = count };
  }

  abbrev pub audit_of : String → String → String → String → ℤ → WorkflowRecord C → AuditEntry
  audit_of actor action detail default now w = record {
    sequence = w.summary.total_audit_entry_count + 1;
    recorded_at_unix_ms = now;
    actor = text_or internal_control_actor actor;
    action = action;
    detail = text_or default detail;
  }

  abbrev pub resumed_state : WorkflowRecord C → WorkflowLifecycleState
  resumed_state w = elim w.latest_response [
    | none ↦ submitted
    | some response ↦ if response.ok then planned else submitted
  ]

module _ {R C : Type 0} where
  unfoldable pub publish_workflow_update : String → ControlPlanService R C → ControlPlanService R C
  unfolding publish
  publish_workflow_update id s = elim s.feed [
    | none ↦ s
    | some feed ↦ if id == "" then s else record s { feed = some (publish id feed).0 }
  ]

  abbrev pub with_store : SqliteWorkflowStore C → ControlPlanService R C → ControlPlanService R C
  with_store store s = record s { store = store }

  -- The audit entry is written and counted, the record stored again, and the update published.
  unfoldable pub record_audit :
      String
      → AuditEntry
      → WorkflowRecord C
      → ControlPlanService R C
      → Option (ControlPlanService R C)
  unfolding publish_workflow_update upsert_workflow write_audit_entry
  record_audit id entry w s = do
    store ← write_audit_entry id entry s.store
    some (
        publish_workflow_update id
          (with_store (upsert_workflow (counting_audit entry.sequence w) store) s))

  -- An action on the record that is stored, if there is one.
  unfoldable pub on_workflow :
      String
      → (WorkflowRecord C
          → ControlPlanService R C
          → Option (ControlPlanService R C × WorkflowActionResponse C))
      → ControlPlanService R C
      → Option (ControlPlanService R C × WorkflowActionResponse C)
  unfolding get_workflow
  on_workflow id act s = elim (get_workflow id s.store) [
    | none ↦ some (s, action_failed not_found)
    | some w ↦ act w s
  ]

module _ {R C : Type 0} (clock : ℕ → ℤ) where
  -- The current time, and the service with one more reading.
  abbrev pub read_clock : ControlPlanService R C → ℤ × ControlPlanService R C
  read_clock s = (clock s.readings, record s { readings = suc (s.readings) })

  -- What pause_workflow, resume_workflow and cancel_workflow do with a record.
  unfoldable pub change_state :
      WorkflowLifecycleState
      → String
      → String
      → ActionRequest
      → WorkflowRecord C
      → ControlPlanService R C
      → Option (ControlPlanService R C × WorkflowActionResponse C)
  unfolding record_audit
  change_state state action default request w s =
      let (now, s1) = read_clock s in
      let w1 = with_state state now w in
      let s2 = with_store (upsert_workflow w1 s1.store) s1 in
      let (then_, s3) = read_clock s2 in
      let entry = audit_of request.actor action request.reason default then_ w1 in
      do
        s4 ← record_audit request.workflow_id entry w1 s3
        some (s4, action_done (counting_audit entry.sequence w1))

  unfoldable pub pause_workflow :
      ActionRequest
      → ControlPlanService R C
      → Option (ControlPlanService R C × WorkflowActionResponse C)
  unfolding on_workflow change_state
  pause_workflow request =
      on_workflow request.workflow_id
        (change_state paused "pause" "Workflow paused from the control plane." request)

  unfoldable pub resume_workflow :
      ActionRequest
      → ControlPlanService R C
      → Option (ControlPlanService R C × WorkflowActionResponse C)
  unfolding on_workflow change_state
  resume_workflow request = on_workflow request.workflow_id (λ w.
      change_state (resumed_state w) "resume" "Workflow resumed from the control plane." request w)

  unfoldable pub cancel_workflow :
      ActionRequest
      → ControlPlanService R C
      → Option (ControlPlanService R C × WorkflowActionResponse C)
  unfolding on_workflow change_state
  cancel_workflow request =
      on_workflow request.workflow_id
        (change_state cancelled "cancel" "Workflow cancelled from the control plane." request)
