-- ===== src/ControlPlane/Recorded.antt =====
-- The loop of control_plan_service.cpp over the runtime's events always comes to its end, and keeps the
-- record and its logs together.
use mathlib.Core.List.{append-nil, append_assoc, map-append}
use task_orchestrator.Base.{
  ℕ, suc, ◌+◌, ℤ, ◌≡◌, refl, sym, ap, subst, ◌∙◌, String, ◌==◌, ◌&&◌, eq_refl, true, List, [], ◌∷◌,
  ◌++◌, map, length, some, is_some, inl, inr, arith, Bool-cases, Option-cases, >>=-some, eqb,
}
use task_orchestrator.ControlPlane.Messages.{WorkflowRecord, WorkflowEvent, WorkflowEventRecord}
use task_orchestrator.ControlPlane.Store.{
  of_workflow, SqliteWorkflowStore, insert_or_replace, upsert_workflow, get_workflow, is_referenced,
  write_event,
}
use task_orchestrator.ControlPlane.Service.{
  ControlPlanService, publish_workflow_update, with_store, read_clock,
}
use task_orchestrator.ControlPlane.Events.{count_event, note_event, persist, persist_all}
use task_orchestrator.ControlPlane.Logs.{
  of_workflow-insert_or_replace, insert_or_replace-IsLog, get_workflow-upsert_workflow,
  get_workflow-id,
}
use task_orchestrator.ControlPlane.Persisted.{AreLogs, IsLogged, note_event-some}

module _ {R C : Type 0} where
  pub publish_workflow_update-store :
      (id : String) (s : ControlPlanService R C) → (publish_workflow_update id s).store ≡ s.store
  unfolding publish_workflow_update
  publish_workflow_update-store id s = elim (Option-cases s.feed) [
    | inl e ↦ rw e refl
    | inr (feed, e) ↦ elim (Bool-cases (id == "")) [
      | inl h ↦ rw (e, h) refl
      | inr h ↦ rw (e, h) refl
    ]
  ]

  pub publish_workflow_update-runtime :
      (id : String) (s : ControlPlanService R C)
      → (publish_workflow_update id s).runtime ≡ s.runtime
  unfolding publish_workflow_update
  publish_workflow_update-runtime id s = elim (Option-cases s.feed) [
    | inl e ↦ rw e refl
    | inr (feed, e) ↦ elim (Bool-cases (id == "")) [
      | inl h ↦ rw (e, h) refl
      | inr h ↦ rw (e, h) refl
    ]
  ]

module _ {C : Type 0} (id : String) where
  -- A record that is stored again, under its own id, where the logs are as long as it counts.
  pub upsert_workflow-IsLogged :
      (w : WorkflowRecord C) (store : SqliteWorkflowStore C)
      → w.summary.workflow_id ≡ id
      → AreLogs id w.summary.total_event_count w.summary.latest_plan_version
          w.summary.total_audit_entry_count store
      → IsLogged id w (upsert_workflow w store)
  unfolding upsert_workflow
  upsert_workflow-IsLogged w store e logs = record {
    found = get_workflow-upsert_workflow w store id ∙ rw (e, eq_refl id) refl;
    logs = record {
      of_events = logs.of_events;
      of_plans = logs.of_plans;
      of_audits = logs.of_audits;
    };
  }

  abbrev written : WorkflowEventRecord → SqliteWorkflowStore C → SqliteWorkflowStore C
  written event store = record store {
    workflow_events =
        insert_or_replace (λ r. r.workflow_id == id && eqb r.message.sequence event.sequence)
          (record { workflow_id = id; boot_id = store.current_boot_id; message = event })
          store.workflow_events;
  }

  write_event-some :
      (event : WorkflowEventRecord) (store : SqliteWorkflowStore C)
      → is_referenced id store ≡ true
      → write_event id event store ≡ some (written event store)
  unfolding write_event
  write_event-some event store referenced = rw referenced refl

  written-AreLogs :
      (event : WorkflowEventRecord) (store : SqliteWorkflowStore C) {events plans audits : ℕ}
      → AreLogs id events plans audits store
      → event.sequence ≡ suc events
      → AreLogs id event.sequence plans audits (written event store)
  written-AreLogs event store {events} logs next = record {
    of_events =
        insert_or_replace-IsLog WorkflowEventRecord.sequence id events store.workflow_events
          store.current_boot_id event logs.of_events next;
    of_plans = logs.of_plans;
    of_audits = logs.of_audits;
  }

module _ {C : Type 0} where
  -- The events that are stored for a workflow, in the order in which they were written.
  abbrev pub event_log : String → SqliteWorkflowStore C → List WorkflowEvent
  event_log id store = map WorkflowEventRecord.event (of_workflow id store.workflow_events)

  written-event_log :
      (id : String) (event : WorkflowEventRecord) (store : SqliteWorkflowStore C)
      {events plans audits : ℕ}
      → AreLogs id events plans audits store
      → event.sequence ≡ suc events
      → event_log id (written id event store) ≡ event_log id store ++ event.event ∷ []
  written-event_log id event store {events} logs next =
      ap (map WorkflowEventRecord.event) (
        of_workflow-insert_or_replace WorkflowEventRecord.sequence id events store.workflow_events
          store.current_boot_id event logs.of_events next)
      ∙ map-append WorkflowEventRecord.event (of_workflow id store.workflow_events) (event ∷ [])

module _ {R C : Type 0} (clock : ℕ → ℤ) (id key fingerprint : String) where
  pub persist-some :
      (event : WorkflowEvent) (w : WorkflowRecord C) (s : ControlPlanService R C)
      → IsLogged id w s.store
      → (w' : WorkflowRecord C) × (s' : ControlPlanService R C) × (persist clock id key fingerprint
            event w s
          ≡ some (w', s'))
        × IsLogged id w' s'.store
        × (w'.summary.total_event_count ≡ suc (w.summary.total_event_count))
        × (event_log id s'.store ≡ event_log id s.store ++ event ∷ [])
  unfolding persist count_event get_workflow upsert_workflow
  persist-some event w s h =
      let (now, s1) = read_clock clock s in
      let referenced : is_referenced id s1.store ≡ true = ap is_some h.found in
      let (w1, store1, e1, n) =
        note_event-some id key fingerprint now event.response w.summary.total_event_count
          (count_event event now w) s1.store referenced h.logs in
      let r : WorkflowEventRecord = record {
        sequence = w1.summary.total_event_count;
        recorded_at_unix_ms = now;
        event = event;
      } in
      let next : w1.summary.total_event_count ≡ suc (w.summary.total_event_count) =
        ground (arith, n.same_events) in
      let s2 = with_store (upsert_workflow w1 (written id r store1)) s1 in
      (
        w1,
        publish_workflow_update id s2,
        >>=-some
            (note_event id key fingerprint now event.response (count_event event now w) s1.store) _
            e1
            (>>=-some (write_event id r store1) _ (write_event-some id r store1 n.referenced) refl),
        subst (IsLogged id w1) (sym (publish_workflow_update-store id s2)) (
            upsert_workflow-IsLogged id w1 (written id r store1)
              (n.same_id ∙ get_workflow-id s.store id h.found)
              (written-AreLogs id r store1 n.logs next)),
        next,
        ap (event_log id) (publish_workflow_update-store id s2)
            ∙ written-event_log id r store1 n.logs next
            ∙ ap (λ rows. map WorkflowEventRecord.event (of_workflow id rows) ++ event ∷ [])
                n.same_rows,
      )

  -- Every event of the list is stored, and the record that is stored counts them.
  pub persist_all-some :
      (events : List WorkflowEvent) (w : WorkflowRecord C) (s : ControlPlanService R C)
      → IsLogged id w s.store
      → (w' : WorkflowRecord C) × (s' : ControlPlanService R C) × (persist_all clock id key
            fingerprint events w s
          ≡ some s')
        × IsLogged id w' s'.store
        × (w'.summary.total_event_count ≡ w.summary.total_event_count + length events)
        × (event_log id s'.store ≡ event_log id s.store ++ events)
  unfolding persist_all
  persist_all-some [] w s h = (w, s, refl, h, omega arith, sym (append-nil (event_log id s.store)))
  persist_all-some (event ∷ events) w s h =
      let (w1, s1, e1, h1, n1, l1) = persist-some event w s h in
      let (w2, s2, e2, h2, n2, l2) = persist_all-some events w1 s1 h1 in
      (
        w2,
        s2,
        >>=-some (persist clock id key fingerprint event w s) _ e1 e2,
        h2,
        ground (arith, n1, n2),
        l2 ∙ ap (λ l. l ++ events) l1 ∙ append_assoc (event_log id s.store) (event ∷ []) events,
      )
