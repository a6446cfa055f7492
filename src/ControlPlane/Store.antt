-- ===== src/ControlPlane/Store.antt =====
-- control_plane/src/store/sqlite_workflow_store.cpp: what its SQL statements do to the tables, each
-- of which is a list of its rows. Every operation holds the store's lock, so it is one step. The
-- message in a blob is the message that was serialized. A write that breaks a foreign key, which
-- makes SQLite throw, gives none.
use task_orchestrator.Base.{
  ℕ, ltb, eqb, ltb_ℤ, String, ◌==◌, Bool, true, false, not, ◌&&◌, List, [], ◌∷◌, ◌++◌, map, length,
  Option, none, some, is_some, find_if, keep_if, lt_id, sort_by, if◌then◌else◌, ◌>>=◌,
}
use task_orchestrator.ControlPlane.Messages.{
  WorkflowRecord, WorkflowEventRecord, WorkflowPlanVersion, AuditEntry, IdempotencyRecord,
}

-- A row that stands in one of the tables of what happened to a workflow: its key's first part, the
-- boot in which it was written, and its message.
pub record Row (M : Type 0) : Type 0 where
  pub workflow_id : String
  pub boot_id : String
  pub message : M

pub record IdempotencyRow : Type 0 where
  pub boot_id : String
  pub message : IdempotencyRecord

pub record SqliteWorkflowStore (C : Type 0) : Type 0 where
  pub current_boot_id : String
  pub workflow_records : List (WorkflowRecord C)
  pub workflow_events : List (Row WorkflowEventRecord)
  pub workflow_plan_versions : List (Row WorkflowPlanVersion)
  pub workflow_audit_entries : List (Row AuditEntry)
  pub idempotency_records : List IdempotencyRow

-- `INSERT OR REPLACE`: the row of the same key goes.
abbrev pub insert_or_replace {ℓ} : {R : Type ℓ} → (R → Bool) → R → List R → List R
insert_or_replace same row rows = keep_if (λ r. not (same r)) rows ++ row ∷ []

-- `ORDER BY n`, ascending.
abbrev pub in_order {ℓ} : {M : Type ℓ} → (M → ℕ) → List M → List M
in_order number rows = sort_by (λ a b. ltb (number a) (number b)) rows

-- The last `n` elements: those that come of `ORDER BY ... DESC LIMIT n`, reversed.
unfoldable pub last_of {ℓ} : {M : Type ℓ} → ℕ → List M → List M
last_of n [] = []
last_of n (x ∷ xs) = let rest = last_of n xs in if ltb n (length (x ∷ xs)) then rest else x ∷ xs

-- A limit of 0 is none.
abbrev pub limited {ℓ} : {M : Type ℓ} → ℕ → List M → List M
limited limit rows = if ltb 0 limit then last_of limit rows else rows

abbrev pub of_workflow : {M : Type 0} → String → List (Row M) → List M
of_workflow id rows = map Row.message (keep_if (λ (r : Row _). r.workflow_id == id) rows)

module _ {C : Type 0} where
  abbrev pub has_id : String → WorkflowRecord C → Bool
  has_id id w = w.summary.workflow_id == id

  -- `ON CONFLICT(workflow_id) DO UPDATE`: the row stays where it is.
  unfoldable pub upsert_row : WorkflowRecord C → List (WorkflowRecord C) → List (WorkflowRecord C)
  upsert_row w [] = w ∷ []
  upsert_row w (r ∷ rows) =
      if has_id w.summary.workflow_id r then w ∷ rows else r ∷ upsert_row w rows

  unfoldable pub upsert_workflow : WorkflowRecord C → SqliteWorkflowStore C → SqliteWorkflowStore C
  unfolding upsert_row
  upsert_workflow w store = record store { workflow_records = upsert_row w store.workflow_records }

  unfoldable pub get_workflow : String → SqliteWorkflowStore C → Option (WorkflowRecord C)
  get_workflow id store = find_if (has_id id) store.workflow_records

  -- `ORDER BY updated_at_unix_ms DESC, workflow_id ASC`.
  abbrev pub listed_before : WorkflowRecord C → WorkflowRecord C → Bool
  listed_before a b =
      if ltb_ℤ b.summary.updated_at_unix_ms a.summary.updated_at_unix_ms
      then true
      else if ltb_ℤ a.summary.updated_at_unix_ms b.summary.updated_at_unix_ms
      then false
      else lt_id a.summary.workflow_id b.summary.workflow_id

  unfoldable pub list_all_workflows : SqliteWorkflowStore C → List (WorkflowRecord C)
  list_all_workflows store = sort_by listed_before store.workflow_records

  -- The foreign key of a row.
  abbrev pub is_referenced : String → SqliteWorkflowStore C → Bool
  is_referenced id store = is_some (get_workflow id store)

  unfoldable pub write_event :
      String → WorkflowEventRecord → SqliteWorkflowStore C → Option (SqliteWorkflowStore C)
  unfolding get_workflow
  write_event id event store =
      if is_referenced id store
      then some (record store {
        workflow_events =
            insert_or_replace (λ r. r.workflow_id == id && eqb r.message.sequence event.sequence)
              (record { workflow_id = id; boot_id = store.current_boot_id; message = event })
              store.workflow_events;
      })
      else none

  unfoldable pub list_events : String → ℕ → SqliteWorkflowStore C → List WorkflowEventRecord
  unfolding last_of
  list_events id limit store =
      limited limit
        (in_order (λ (r : WorkflowEventRecord). r.sequence) (of_workflow id store.workflow_events))

  unfoldable pub write_plan_version :
      String → WorkflowPlanVersion → SqliteWorkflowStore C → Option (SqliteWorkflowStore C)
  unfolding get_workflow
  write_plan_version id plan store =
      if is_referenced id store
      then some (record store {
        workflow_plan_versions =
            insert_or_replace (λ r. r.workflow_id == id && eqb r.message.version plan.version)
              (record { workflow_id = id; boot_id = store.current_boot_id; message = plan })
              store.workflow_plan_versions;
      })
      else none

  unfoldable pub list_plan_versions : String → ℕ → SqliteWorkflowStore C → List WorkflowPlanVersion
  unfolding last_of
  list_plan_versions id limit store = limited limit (
      in_order (λ (r : WorkflowPlanVersion). r.version)
        (of_workflow id store.workflow_plan_versions))

  unfoldable pub write_audit_entry :
      String → AuditEntry → SqliteWorkflowStore C → Option (SqliteWorkflowStore C)
  unfolding get_workflow
  write_audit_entry id entry store =
      if is_referenced id store
      then some (record store {
        workflow_audit_entries =
            insert_or_replace (λ r. r.workflow_id == id && eqb r.message.sequence entry.sequence)
              (record { workflow_id = id; boot_id = store.current_boot_id; message = entry })
              store.workflow_audit_entries;
      })
      else none

  unfoldable pub list_audit_entries : String → ℕ → SqliteWorkflowStore C → List AuditEntry
  unfolding last_of
  list_audit_entries id limit store =
      limited limit
        (in_order (λ (r : AuditEntry). r.sequence) (of_workflow id store.workflow_audit_entries))

  unfoldable pub put_idempotency_record :
      IdempotencyRecord → SqliteWorkflowStore C → Option (SqliteWorkflowStore C)
  unfolding get_workflow
  put_idempotency_record r store =
      if is_referenced r.workflow_id store
      then some (record store {
        idempotency_records =
            insert_or_replace (λ (x : IdempotencyRow). x.message.key == r.key)
              (record { boot_id = store.current_boot_id; message = r }) store.idempotency_records;
      })
      else none

  unfoldable pub get_idempotency_record : String → SqliteWorkflowStore C → Option IdempotencyRecord
  get_idempotency_record key store = do
    row ← find_if (λ (x : IdempotencyRow). x.message.key == key) store.idempotency_records
    some row.message
