-- ===== src/ControlPlane/Submitted.antt =====
-- control_plan_service.cpp: a submission comes to its end, and keeps the workflow's record and its logs
-- consistent.
use task_orchestrator.Base.{
  ℕ, ℤ, ◌≡◌, refl, sym, ap, subst, ◌⊎◌, inl, inr, String, ◌==◌, true, false, none, some, Bool-cases,
  Option-cases, or_default, add_id,
}
use task_orchestrator.ControlPlane.Messages.{
  WorkflowSummary, WorkflowRecord, SubmitWorkflowRequest, ReorchestrateRequest,
}
use task_orchestrator.ControlPlane.Store.{SqliteWorkflowStore, upsert_workflow, get_workflow}
use task_orchestrator.ControlPlane.Service.{
  WorkflowRuntimeService, ControlPlanService, publish_workflow_update, with_store, read_clock,
}
use task_orchestrator.ControlPlane.Streams.{
  first_record, accepted_record, cached, submit_anew, stream_submit_workflow,
}
use task_orchestrator.ControlPlane.Logs.{get_workflow-id}
use task_orchestrator.ControlPlane.Persisted.{IsLogged}
use task_orchestrator.ControlPlane.Recorded.{
  publish_workflow_update-store, upsert_workflow-IsLogged, event_log,
}
use task_orchestrator.ControlPlane.Consistent.{
  counted, stored_events, IsConsistent, Ends, replay-Ends, persist_all-Ends,
}

module _ {R C A O : Type 0} (clock : ℕ → ℤ) (runtime : WorkflowRuntimeService R C A O)
    (fingerprint_submit : SubmitWorkflowRequest C A → String)
    (fingerprint_reorchestrate : ReorchestrateRequest A O → String) where
  -- A record to be stored that counts what is stored.
  record IsFirst (id : String) (store : SqliteWorkflowStore C) (w : WorkflowRecord C) : Type 0 where
    same_id : w.summary.workflow_id ≡ id
    same_events : w.summary.total_event_count ≡ stored_events id store
    same_plans :
        w.summary.latest_plan_version
        ≡ counted WorkflowSummary.latest_plan_version (get_workflow id store)
    same_audits :
        w.summary.total_audit_entry_count
        ≡ counted WorkflowSummary.total_audit_entry_count (get_workflow id store)

  -- The condition on a submission: what is stored is to be replaced, or nothing is.
  abbrev pub IsReplacing : SubmitWorkflowRequest C A → SqliteWorkflowStore C → Type 0
  IsReplacing request store =
      (or_default false request.replace_existing ≡ true)
      ⊎ (get_workflow request.config.id store ≡ none)

  missing-IsFirst :
      (request : SubmitWorkflowRequest C A) (now : ℤ) (store : SqliteWorkflowStore C)
      → get_workflow request.config.id store ≡ none
      → IsFirst request.config.id store (
          first_record clock runtime fingerprint_submit fingerprint_reorchestrate request now store)
  unfolding first_record
  missing-IsFirst request now store e =
      elim (Bool-cases (or_default false request.replace_existing)) [
        | inl b ↦
            rw (b, e, first_record)
              (record {
                same_id = refl;
                same_events = rw e refl;
                same_plans = rw e refl;
                same_audits = rw e refl;
              })
        | inr b ↦
            rw (b, first_record)
              (record {
                same_id = refl;
                same_events = rw e refl;
                same_plans = rw e refl;
                same_audits = rw e refl;
              })
      ]

  found-IsFirst :
      (request : SubmitWorkflowRequest C A) (now : ℤ) (store : SqliteWorkflowStore C)
      (w : WorkflowRecord C)
      → or_default false request.replace_existing ≡ true
      → get_workflow request.config.id store ≡ some w
      → IsFirst request.config.id store (
          first_record clock runtime fingerprint_submit fingerprint_reorchestrate request now store)
  unfolding first_record
  found-IsFirst request now store w b e = elim (Bool-cases (w.summary.workflow_id == "")) [
    | inl k ↦
        rw (b, e, k, first_record)
          (record {
            same_id = refl;
            same_events = rw e refl;
            same_plans = rw e refl;
            same_audits = rw e refl;
          })
    | inr k ↦
        rw (b, e, k, first_record)
          (record {
            same_id = get_workflow-id store request.config.id e;
            same_events = rw e refl;
            same_plans = rw e refl;
            same_audits = rw e refl;
          })
  ]

  -- What an accepted submission starts with is stored, and is logged.
  accepted-IsLogged :
      (request : SubmitWorkflowRequest C A) (now : ℤ) (store : SqliteWorkflowStore C)
      (w : WorkflowRecord C)
      → IsFirst request.config.id store w
      → IsConsistent request.config.id store
      → IsLogged request.config.id
          (accepted_record clock runtime fingerprint_submit fingerprint_reorchestrate request now w)
          (upsert_workflow
            (accepted_record clock runtime fingerprint_submit fingerprint_reorchestrate request now
              w)
            store)
  accepted-IsLogged request now store w f h =
      upsert_workflow-IsLogged request.config.id
        (accepted_record clock runtime fingerprint_submit fingerprint_reorchestrate request now w)
        store f.same_id (rw (f.same_events, f.same_plans, f.same_audits) h)

  submit_anew-Ends :
      (request : SubmitWorkflowRequest C A) (key fingerprint : String) (s : ControlPlanService R C)
      → IsReplacing request s.store
      → IsConsistent request.config.id s.store
      → Ends (runtime.stream_submit_workflow request) request.config.id s (
          submit_anew clock runtime fingerprint_submit fingerprint_reorchestrate request key
            fingerprint s)
  unfolding submit_anew upsert_workflow
  submit_anew-Ends request key fingerprint s replacing h =
      let id = request.config.id in
      let (now, s1) = read_clock clock s in
      let first =
        first_record clock runtime fingerprint_submit fingerprint_reorchestrate request now
          s.store in
      let is_first : IsFirst id s.store first = elim (Option-cases (get_workflow id s.store)) [
        | inl e ↦ missing-IsFirst request now s.store e
        | inr (w, e) ↦ elim replacing [
          | inl b ↦ found-IsFirst request now s.store w b e
          | inr none_ ↦ missing-IsFirst request now s.store none_
        ]
      ] in
      let w =
        accepted_record clock runtime fingerprint_submit fingerprint_reorchestrate request now
          first in
      let stored = with_store (upsert_workflow w s.store) s1 in
      let s2 = publish_workflow_update id stored in
      let (events, runtime') = runtime.stream_submit_workflow request s2.runtime in
      persist_all-Ends clock runtime fingerprint_submit fingerprint_reorchestrate
        (runtime.stream_submit_workflow request) s2.runtime id key fingerprint w s
        (record s2 { hydrated_workflows = add_id id s2.hydrated_workflows; runtime = runtime' })
        (subst (IsLogged id w) (sym (publish_workflow_update-store id stored))
          (accepted-IsLogged request now s.store first is_first h))
        is_first.same_events (ap (event_log id) (publish_workflow_update-store id stored))

  -- Whatever the runtime answers, a submission comes to its end and leaves the workflow
  -- consistent: its events, plan versions and audit entries are numbered from one without a gap,
  -- up to what its record counts; and either nothing is stored and the stream is one event that
  -- the service makes itself, or the stream is what the runtime gives, and the event log of the
  -- workflow is what it was before and then these events, in their order. Where the workflow is
  -- consistent before, and the submission replaces what is stored or nothing is.
  pub stream_submit_workflow-Ends :
      (request : SubmitWorkflowRequest C A) (s : ControlPlanService R C)
      → IsReplacing request s.store
      → IsConsistent request.config.id s.store
      → Ends (runtime.stream_submit_workflow request) request.config.id s (
          stream_submit_workflow clock runtime fingerprint_submit fingerprint_reorchestrate request
            s)
  unfolding stream_submit_workflow
  stream_submit_workflow-Ends request s replacing h =
      elim (Option-cases (
        cached clock runtime fingerprint_submit fingerprint_reorchestrate
          (or_default "" request.idempotency_key) s)) [
            | inl e ↦ rw (e, stream_submit_workflow) (submit_anew-Ends request _ _ s replacing h)
            | inr (existing, e) ↦
                rw (e, stream_submit_workflow)
                  (replay-Ends clock runtime fingerprint_submit fingerprint_reorchestrate
                    (runtime.stream_submit_workflow request) request.config.id _ _ existing s s refl
                    h)
          ]
