-- ===== src/ControlPlane/Persisted.antt =====
-- The loop of control_plan_service.cpp that stores the runtime's events keeps the logs without a gap.
use task_orchestrator.Base.{
  ℕ, ◌+◌, ℤ, ◌≡◌, refl, ◌∙◌, String, ◌==◌, eqb, ◌&&◌, true, Option, none, some, inl, inr, arith,
  Bool-cases, >>=-some, ◌>>=◌,
}
use task_orchestrator.PlanDiff.{RuntimeApiResponse}
use task_orchestrator.ControlPlane.Messages.{
  WorkflowRecord, WorkflowEventRecord, WorkflowPlanVersion, AuditEntry, IdempotencyRecord,
}
use task_orchestrator.ControlPlane.Store.{
  IdempotencyRow, SqliteWorkflowStore, insert_or_replace, get_workflow, is_referenced,
  write_plan_version, put_idempotency_record,
}
use task_orchestrator.ControlPlane.Events.{with_error, note_response, cache_response, note_event}
use task_orchestrator.ControlPlane.Logs.{IsLog, insert_or_replace-IsLog}

module _ {C : Type 0} (id : String) where
  -- The workflow's rows are logs as long as the counts.
  pub record AreLogs (events plans audits : ℕ) (store : SqliteWorkflowStore C) : Type 0 where
    pub of_events : IsLog WorkflowEventRecord.sequence id events store.workflow_events
    pub of_plans : IsLog WorkflowPlanVersion.version id plans store.workflow_plan_versions
    pub of_audits : IsLog AuditEntry.sequence id audits store.workflow_audit_entries

  -- The record is stored, and the workflow's rows are logs as long as the record counts.
  pub record IsLogged (w : WorkflowRecord C) (store : SqliteWorkflowStore C) : Type 0 where
    pub found : get_workflow id store ≡ some w
    pub logs :
        AreLogs w.summary.total_event_count w.summary.latest_plan_version
          w.summary.total_audit_entry_count store

  -- What noting an event's response does: it may write a plan version, and counts it.
  pub record IsNoted (events : ℕ) (w w' : WorkflowRecord C) (store store' : SqliteWorkflowStore C)
      : Type 0 where
    pub same_id : w'.summary.workflow_id ≡ w.summary.workflow_id
    pub same_events : w'.summary.total_event_count ≡ w.summary.total_event_count
    pub same_rows : store'.workflow_events ≡ store.workflow_events
    pub referenced : is_referenced id store' ≡ true
    pub logs :
        AreLogs events w'.summary.latest_plan_version w'.summary.total_audit_entry_count store'

  module _ (events : ℕ) (now : ℤ) (w : WorkflowRecord C) (store : SqliteWorkflowStore C)
      (referenced : is_referenced id store ≡ true)
      (logs : AreLogs events w.summary.latest_plan_version w.summary.total_audit_entry_count
        store) where
    abbrev pub Notes : Option (WorkflowRecord C × SqliteWorkflowStore C) → Type 0
    Notes result =
        (w' : WorkflowRecord C) × (store' : SqliteWorkflowStore C) × (result ≡ some (w', store'))
        × IsNoted events w w' store store'

    abbrev plan : RuntimeApiResponse → WorkflowPlanVersion
    plan response = record {
      version = w.summary.latest_plan_version + 1;
      recorded_at_unix_ms = now;
      response = response;
    }

    abbrev planned_in : RuntimeApiResponse → SqliteWorkflowStore C
    planned_in response = record store {
      workflow_plan_versions =
          insert_or_replace
            (λ r. r.workflow_id == id && eqb r.message.version (w.summary.latest_plan_version + 1))
            (record { workflow_id = id; boot_id = store.current_boot_id; message = plan response })
            store.workflow_plan_versions;
    }

    abbrev planned_record : RuntimeApiResponse → WorkflowRecord C
    planned_record response = record w {
      latest_response = some response;
      summary = record (w.summary) {
        last_error_message = "";
        latest_plan_version = w.summary.latest_plan_version + 1;
      };
    }

    abbrev failed_record : String → RuntimeApiResponse → WorkflowRecord C
    failed_record message response =
        with_error message (record w { latest_response = some response })

    note_response-Notes :
        (response : RuntimeApiResponse) → Notes (note_response id now response w store)
    unfolding note_response write_plan_version get_workflow
    note_response-Notes response = elim (Bool-cases response.ok) [
      | inr bad ↦ (
        failed_record response.error_message response,
        store,
        rw bad refl,
        record {
          same_id = refl;
          same_events = refl;
          same_rows = refl;
          referenced = referenced;
          logs = logs;
        },
      )
      | inl fine ↦ elim (Bool-cases response.result.ok) [
        | inr bad ↦ (
          failed_record response.result.error_message response,
          store,
          rw (fine, bad) refl,
          record {
            same_id = refl;
            same_events = refl;
            same_rows = refl;
            referenced = referenced;
            logs = logs;
          },
        )
        | inl good ↦ (
          planned_record response,
          planned_in response,
          rw (fine, good, referenced) refl,
          record {
            same_id = refl;
            same_events = refl;
            same_rows = refl;
            referenced = referenced;
            logs = record {
              of_events = logs.of_events;
              of_plans =
                  insert_or_replace-IsLog WorkflowPlanVersion.version id
                    w.summary.latest_plan_version store.workflow_plan_versions store.current_boot_id
                    (plan response) logs.of_plans (omega arith);
              of_audits = logs.of_audits;
            };
          },
        )
      ]
    ]

  -- Keeping a response for a key changes none of the logs.
  cache_response-some :
      (key fingerprint : String) (now : ℤ) (response : RuntimeApiResponse)
      (store : SqliteWorkflowStore C) {events plans audits : ℕ}
      → is_referenced id store ≡ true
      → AreLogs events plans audits store
      → (store' : SqliteWorkflowStore C) × (cache_response id key fingerprint now response store
          ≡ some store')
        × (is_referenced id store' ≡ true)
        × (store'.workflow_events ≡ store.workflow_events)
        × AreLogs events plans audits store'
  unfolding cache_response put_idempotency_record get_workflow
  cache_response-some key fingerprint now response store referenced logs =
      elim (Bool-cases (key == "")) [
        | inl e ↦ (store, rw e refl, referenced, refl, logs)
        | inr e ↦
            let r : IdempotencyRecord = record {
              key = key;
              workflow_id = id;
              request_fingerprint = fingerprint;
              recorded_at_unix_ms = now;
              cached_response = response;
            } in
            (
              record store {
                idempotency_records =
                    insert_or_replace (λ (x : IdempotencyRow). x.message.key == key)
                      (record { boot_id = store.current_boot_id; message = r })
                      store.idempotency_records;
              },
              rw (e, referenced) refl,
              referenced,
              refl,
              record {
                of_events = logs.of_events;
                of_plans = logs.of_plans;
                of_audits = logs.of_audits;
              },
            )
      ]

  pub note_event-some :
      (key fingerprint : String) (now : ℤ) (response : Option RuntimeApiResponse) (events : ℕ)
      (w : WorkflowRecord C) (store : SqliteWorkflowStore C)
      (referenced : is_referenced id store ≡ true)
      (logs : AreLogs events w.summary.latest_plan_version w.summary.total_audit_entry_count store)
      → Notes events now w store referenced logs
          (note_event id key fingerprint now response w store)
  unfolding note_event
  note_event-some key fingerprint now none events w store referenced logs = (
    w,
    store,
    refl,
    record {
      same_id = refl;
      same_events = refl;
      same_rows = refl;
      referenced = referenced;
      logs = logs;
    },
  )
  note_event-some key fingerprint now (some response) events w store referenced logs =
      let (w1, store1, e1, n) = note_response-Notes events now w store referenced logs response in
      let (store2, e2, r, rows, l) =
        cache_response-some key fingerprint now response store1 n.referenced n.logs in
      (
        w1,
        store2,
        >>=-some (note_response id now response w store)
            (λ noted. do
              store' ← cache_response id key fingerprint now response noted.1
              some (noted.0, store'))
            e1
            (>>=-some (cache_response id key fingerprint now response store1) (λ x. some (w1, x)) e2
              refl),
        record {
          same_id = n.same_id;
          same_events = n.same_events;
          same_rows = rows ∙ n.same_rows;
          referenced = r;
          logs = l;
        },
      )
