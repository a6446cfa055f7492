-- ===== src/ControlPlane/Storage.antt =====
-- control_plane/src/store/sqlite_workflow_store.cpp: what the store measures, and what it prunes.
use task_orchestrator.Base.{
  ℕ, ltb, ℤ, ltb_ℤ, ◌==◌, Bool, true, false, not, ◌&&◌, length, Option, none, some, keep_if,
}
use task_orchestrator.ControlPlane.Messages.{
  WorkflowLifecycleState, unspecified, submitted, planning, planned, paused, cancelled, failed,
  recovering, WorkflowSummary, WorkflowRecord, WorkflowEventRecord, WorkflowPlanVersion, AuditEntry,
}
use task_orchestrator.ControlPlane.Store.{Row, IdempotencyRow, SqliteWorkflowStore, get_workflow}

pub record StorageMetrics : Type 0 where
  pub recent_event_count : ℕ
  pub retained_plan_versions : ℕ
  pub tracked_workflows : ℕ
  pub active_workflows : ℕ

pub record StoragePruneResult : Type 0 where
  pub pruned_event_rows : ℕ
  pub pruned_plan_version_rows : ℕ
  pub pruned_audit_entry_rows : ℕ
  pub pruned_idempotency_rows : ℕ

-- The states that `get_storage_metrics` counts.
abbrev pub is_active_state : WorkflowLifecycleState → Bool
is_active_state submitted = true
is_active_state planning = true
is_active_state planned = true
is_active_state paused = true
is_active_state recovering = true
is_active_state unspecified = false
is_active_state cancelled = false
is_active_state failed = false

module _ {C : Type 0} where
  unfoldable pub get_storage_metrics : ℤ → SqliteWorkflowStore C → StorageMetrics
  get_storage_metrics recent_since store = record {
    recent_event_count = length (
        keep_if
          (λ (r : Row WorkflowEventRecord). not (ltb_ℤ r.message.recorded_at_unix_ms recent_since))
          store.workflow_events);
    retained_plan_versions = length store.workflow_plan_versions;
    tracked_workflows = length store.workflow_records;
    active_workflows = length (
        keep_if (λ (w : WorkflowRecord C). is_active_state w.summary.state) store.workflow_records);
  }

  -- `number < COALESCE((SELECT count FROM workflow_records ...), number)`.
  abbrev pub is_below : (WorkflowSummary → ℕ) → ℕ → Option (WorkflowRecord C) → Bool
  is_below count number none = false
  is_below count number (some w) = ltb number (count w.summary)

  -- The condition of the first three DELETE statements.
  unfoldable pub is_stale :
      {M : Type 0}
      → (M → ℕ)
      → (M → ℤ)
      → (WorkflowSummary → ℕ)
      → ℤ
      → SqliteWorkflowStore C
      → Row M
      → Bool
  unfolding get_workflow
  is_stale number recorded_at count before store r =
      not (r.boot_id == store.current_boot_id)
      && (ltb_ℤ (recorded_at r.message) before
          && is_below count (number r.message) (get_workflow r.workflow_id store))

  abbrev pub stale_key : ℤ → SqliteWorkflowStore C → IdempotencyRow → Bool
  stale_key before store r =
      not (r.boot_id == store.current_boot_id) && ltb_ℤ r.message.recorded_at_unix_ms before

  abbrev pub stale_event : ℤ → SqliteWorkflowStore C → Row WorkflowEventRecord → Bool
  stale_event before store =
      is_stale WorkflowEventRecord.sequence WorkflowEventRecord.recorded_at_unix_ms
        WorkflowSummary.total_event_count before store

  abbrev pub stale_plan : ℤ → SqliteWorkflowStore C → Row WorkflowPlanVersion → Bool
  stale_plan before store =
      is_stale WorkflowPlanVersion.version WorkflowPlanVersion.recorded_at_unix_ms
        WorkflowSummary.latest_plan_version before store

  abbrev pub stale_audit : ℤ → SqliteWorkflowStore C → Row AuditEntry → Bool
  stale_audit before store =
      is_stale AuditEntry.sequence AuditEntry.recorded_at_unix_ms
        WorkflowSummary.total_audit_entry_count before store

  unfoldable pub prune_stale_boot_data :
      ℤ → SqliteWorkflowStore C → SqliteWorkflowStore C × StoragePruneResult
  unfolding is_stale
  prune_stale_boot_data before store = (
    record store {
      workflow_events = keep_if (λ r. not (stale_event before store r)) store.workflow_events;
      workflow_plan_versions =
          keep_if (λ r. not (stale_plan before store r)) store.workflow_plan_versions;
      workflow_audit_entries =
          keep_if (λ r. not (stale_audit before store r)) store.workflow_audit_entries;
      idempotency_records = keep_if (λ r. not (stale_key before store r)) store.idempotency_records;
    },
    record {
      pruned_event_rows = length (keep_if (stale_event before store) store.workflow_events);
      pruned_plan_version_rows =
          length (keep_if (stale_plan before store) store.workflow_plan_versions);
      pruned_audit_entry_rows =
          length (keep_if (stale_audit before store) store.workflow_audit_entries);
      pruned_idempotency_rows = length (keep_if (stale_key before store) store.idempotency_records);
    },
  )
