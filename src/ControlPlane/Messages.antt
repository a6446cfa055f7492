-- ===== src/ControlPlane/Messages.antt =====
-- The messages of protocol/proto/task_orchestration.proto and protocol/proto/control_plane.proto
-- that the control plane reads and writes. `optional` fields are Options; `C`, `A` and `O` stand for
-- what the control plane only hands on: a workflow's definition, a caller's credentials, and overrides.
use task_orchestrator.Base.{ℕ, ℤ, String, Bool, List, Option}
use task_orchestrator.PlanDiff.{RuntimeApiResponse, WorkflowPlanDiff}

pub data WorkflowLifecycleState : Type 0 where
  unspecified : WorkflowLifecycleState
  submitted : WorkflowLifecycleState
  planning : WorkflowLifecycleState
  planned : WorkflowLifecycleState
  paused : WorkflowLifecycleState
  cancelled : WorkflowLifecycleState
  failed : WorkflowLifecycleState
  recovering : WorkflowLifecycleState

pub data WorkflowEventType : Type 0 where
  unspecified_event : WorkflowEventType
  request_rejected : WorkflowEventType
  workflow_accepted : WorkflowEventType
  runtime_override_applied : WorkflowEventType
  task_completed : WorkflowEventType
  replanning_started : WorkflowEventType
  task_planned : WorkflowEventType
  run_finished : WorkflowEventType

pub record WorkflowSummary : Type 0 where
  pub workflow_id : String
  pub state : WorkflowLifecycleState
  pub created_at_unix_ms : ℤ
  pub updated_at_unix_ms : ℤ
  pub latest_plan_version : ℕ
  pub total_event_count : ℕ
  pub total_audit_entry_count : ℕ
  pub last_error_message : String

pub record WorkflowConfig (C : Type 0) : Type 0 where
  pub id : String
  pub definition : C

pub record WorkflowRecord (C : Type 0) : Type 0 where
  pub summary : WorkflowSummary
  pub config : WorkflowConfig C
  pub latest_response : Option RuntimeApiResponse

pub record WorkflowEvent : Type 0 where
  pub kind : WorkflowEventType
  pub workflow_id : String
  pub task_id : String
  pub actor_id : String
  pub start_time : ℤ
  pub end_time : ℤ
  pub detail : String
  pub response : Option RuntimeApiResponse

pub record WorkflowEventRecord : Type 0 where
  pub sequence : ℕ
  pub recorded_at_unix_ms : ℤ
  pub event : WorkflowEvent

pub record WorkflowPlanVersion : Type 0 where
  pub version : ℕ
  pub recorded_at_unix_ms : ℤ
  pub response : RuntimeApiResponse

pub record AuditEntry : Type 0 where
  pub sequence : ℕ
  pub recorded_at_unix_ms : ℤ
  pub actor : String
  pub action : String
  pub detail : String

pub record IdempotencyRecord : Type 0 where
  pub key : String
  pub workflow_id : String
  pub request_fingerprint : String
  pub recorded_at_unix_ms : ℤ
  pub cached_response : RuntimeApiResponse

pub record SubmitWorkflowRequest (C A : Type 0) : Type 0 where
  pub config : WorkflowConfig C
  pub auth : A
  pub replace_existing : Option Bool
  pub idempotency_key : Option String

pub record ReorchestrateRequest (A O : Type 0) : Type 0 where
  pub workflow_id : String
  pub overrides : O
  pub auth : A
  pub trigger_reorchestration : Option Bool
  pub idempotency_key : Option String
  pub expected_plan_version : Option ℤ

-- `PauseWorkflowRequest`, `ResumeWorkflowRequest` and `CancelWorkflowRequest` have the same fields.
pub record ActionRequest : Type 0 where
  pub workflow_id : String
  pub actor : String
  pub reason : String

pub record WorkflowActionResponse (C : Type 0) : Type 0 where
  pub ok : Bool
  pub workflow : Option (WorkflowRecord C)
  pub error_message : String

pub record ManualInterventionRequest (A O : Type 0) : Type 0 where
  pub workflow_id : String
  pub actor : String
  pub note : String
  pub overrides : O
  pub trigger_reorchestration : Bool
  pub auth : A
  pub idempotency_key : Option String
  pub expected_plan_version : Option ℤ

pub record GetWorkflowHistoryRequest : Type 0 where
  pub workflow_id : String
  pub max_events : ℤ
  pub max_plan_versions : ℤ
  pub max_audit_entries : ℤ

pub record GetWorkflowHistoryResponse (C : Type 0) : Type 0 where
  pub ok : Bool
  pub workflow : Option (WorkflowRecord C)
  pub events : List WorkflowEventRecord
  pub plan_versions : List WorkflowPlanVersion
  pub audit_entries : List AuditEntry
  pub error_message : String

pub record GetPlanDiffRequest : Type 0 where
  pub workflow_id : String
  pub from_plan_version : ℤ
  pub to_plan_version : ℤ

pub record GetPlanDiffResponse : Type 0 where
  pub ok : Bool
  pub diff : Option WorkflowPlanDiff
  pub error_message : String
