-- ===== src/ControlPlane/Consistent.antt =====
-- control_plan_service.cpp: a re-orchestration comes to its end, and keeps the workflow's record and its
-- logs consistent.
use task_orchestrator.Base.{
  ℕ, ◌+◌, ℤ, ◌≡◌, refl, sym, ap, subst, ◌∙◌, ◌⊎◌, inl, inr, String, ◌==◌, List, [], ◌∷◌, ◌++◌,
  length, Option, none, some, Bool-cases, Option-cases, >>=-some, ◌>>=◌, or_default, contains,
}
use task_orchestrator.PlanDiff.{RuntimeApiResponse}
use task_orchestrator.ControlPlane.Messages.{
  WorkflowEventType, WorkflowSummary, WorkflowRecord, WorkflowEvent, SubmitWorkflowRequest,
  ReorchestrateRequest, IdempotencyRecord,
}
use task_orchestrator.ControlPlane.Store.{SqliteWorkflowStore, get_workflow}
use task_orchestrator.ControlPlane.Service.{WorkflowRuntimeService, ControlPlanService}
use task_orchestrator.ControlPlane.Streams.{
  replay_request, replay, cached, refusal, is_stale_version, hydrate, reorchestrate_hydrated,
  reorchestrate_record, stream_reorchestrate,
}
use task_orchestrator.ControlPlane.Events.{
  make_response_event, make_runtime_error, rejection, persist_all,
}
use task_orchestrator.ControlPlane.Persisted.{AreLogs, IsLogged}
use task_orchestrator.ControlPlane.Recorded.{event_log, persist_all-some}

module _ {C : Type 0} where
  -- What a record that may be missing counts.
  abbrev pub counted : (WorkflowSummary → ℕ) → Option (WorkflowRecord C) → ℕ
  counted count none = 0
  counted count (some w) = count w.summary

  abbrev pub stored_events : String → SqliteWorkflowStore C → ℕ
  stored_events id store = counted WorkflowSummary.total_event_count (get_workflow id store)

  -- The workflow's logs are as long as its record counts, and empty where it has none.
  abbrev pub IsConsistent : String → SqliteWorkflowStore C → Type 0
  IsConsistent id store =
      AreLogs id (stored_events id store)
        (counted WorkflowSummary.latest_plan_version (get_workflow id store))
        (counted WorkflowSummary.total_audit_entry_count (get_workflow id store)) store

  pub IsLogged-IsConsistent :
      (id : String) (store : SqliteWorkflowStore C) {w : WorkflowRecord C}
      → IsLogged id w store
      → IsConsistent id store
  IsLogged-IsConsistent id store h = rw h.found (h.logs)

  pub IsConsistent-IsLogged :
      (id : String) (store : SqliteWorkflowStore C) {w : WorkflowRecord C}
      → get_workflow id store ≡ some w
      → IsConsistent id store
      → IsLogged id w store
  IsConsistent-IsLogged id store e h = record { found = e; logs = rw e at h }

module _ {R C : Type 0} (given : R → List WorkflowEvent × R) (id : String)
    (s : ControlPlanService R C) where
  -- A stream that comes to its end, after which the workflow is consistent: either nothing is
  -- stored, and the stream is one event that the service made, or the stream is what the runtime
  -- gives, and its events are stored after those that were.
  abbrev pub Ends : Option (ControlPlanService R C × List WorkflowEvent) → Type 0
  Ends result =
      (s' : ControlPlanService R C) × (events : List WorkflowEvent) × (result ≡ some (s', events))
      × IsConsistent id s'.store
      × (((s'.store ≡ s.store)
            × (kind : WorkflowEventType) × (response : RuntimeApiResponse) × (detail : String)
            × (events ≡ make_response_event kind id response detail ∷ []))
          ⊎ ((r : R) × (events ≡ (given r).0)
              × (event_log id s'.store ≡ event_log id s.store ++ events)
              × (stored_events id s'.store ≡ stored_events id s.store + length events)))

  -- A stream that stores nothing.
  unchanged-Ends :
      (s' : ControlPlanService R C) (kind : WorkflowEventType) (response : RuntimeApiResponse)
      (detail : String)
      → s'.store ≡ s.store
      → IsConsistent id s.store
      → Ends (some (s', make_response_event kind id response detail ∷ []))
  unchanged-Ends s' kind response detail e h = (
    s',
    make_response_event kind id response detail ∷ [],
    refl,
    subst (IsConsistent id) (sym e) h,
    inl (e, kind, response, detail, refl),
  )

module _ {R C A O : Type 0} (clock : ℕ → ℤ) (runtime : WorkflowRuntimeService R C A O)
    (fingerprint_submit : SubmitWorkflowRequest C A → String)
    (fingerprint_reorchestrate : ReorchestrateRequest A O → String) where
  -- A key that is known is replayed or rejected, and nothing is stored.
  pub replay-Ends :
      (given : R → List WorkflowEvent × R) (id fingerprint reuse : String)
      (existing : IdempotencyRecord) (s s' : ControlPlanService R C)
      → s'.store ≡ s.store
      → IsConsistent id s.store
      → Ends given id s (
          replay clock runtime fingerprint_submit fingerprint_reorchestrate id fingerprint reuse
            existing s')
  unfolding replay
  replay-Ends given id fingerprint reuse existing s s' e h =
      elim (Bool-cases (existing.request_fingerprint == fingerprint)) [
        | inl k ↦ rw k (unchanged-Ends given id s s' _ _ _ e h)
        | inr k ↦ rw k (unchanged-Ends given id s s' _ _ _ e h)
      ]

  -- The runtime's events are stored after a record that counts what is stored.
  pub persist_all-Ends :
      (given : R → List WorkflowEvent × R) (r : R) (id key fingerprint : String)
      (w : WorkflowRecord C) (s s' : ControlPlanService R C)
      → IsLogged id w s'.store
      → w.summary.total_event_count ≡ stored_events id s.store
      → event_log id s'.store ≡ event_log id s.store
      → Ends given id s
          (do s'' ← persist_all clock id key fingerprint (given r).0 w s'; some (s'', (given r).0))
  persist_all-Ends given r id key fingerprint w s s' h n l =
      let events = (given r).0 in
      let (w2, s2, e, h2, n2, l2) = persist_all-some clock id key fingerprint events w s' h in
      (
        s2,
        events,
        >>=-some (persist_all clock id key fingerprint events w s') _ e refl,
        IsLogged-IsConsistent id s2.store h2,
        inr (
          r,
          refl,
          l2 ∙ ap (λ log. log ++ events) l,
          rw h2.found (n2 ∙ ap (λ k. k + length events) n),
        ),
      )

  hydrate-store :
      (request : ReorchestrateRequest A O) (w : WorkflowRecord C) (s : ControlPlanService R C)
      → (hydrate clock runtime fingerprint_submit fingerprint_reorchestrate request w s).0.store
        ≡ s.store
  unfolding hydrate
  hydrate-store request w s =
      elim (Bool-cases (contains request.workflow_id s.hydrated_workflows)) [
        | inl e ↦ rw e refl
        | inr e ↦
            rw e
              (elim (Bool-cases
                (runtime.submit_workflow
                  (replay_request clock runtime fingerprint_submit fingerprint_reorchestrate request
                    w)
                  s.runtime).0.ok) [ inl k ↦ rw k refl | inr k ↦ rw k refl ])
      ]

  reorchestrate_hydrated-Ends :
      (request : ReorchestrateRequest A O) (w : WorkflowRecord C) (s s' : ControlPlanService R C)
      → s'.store ≡ s.store
      → get_workflow request.workflow_id s.store ≡ some w
      → IsConsistent request.workflow_id s.store
      → Ends (runtime.stream_reorchestrate request) request.workflow_id s (
          reorchestrate_hydrated clock runtime fingerprint_submit fingerprint_reorchestrate request
            w s')
  unfolding reorchestrate_hydrated
  reorchestrate_hydrated-Ends request w s s' e found h =
      let given = runtime.stream_reorchestrate request in
      let id = request.workflow_id in
      let key = or_default "" request.idempotency_key in
      elim (Option-cases
        (cached clock runtime fingerprint_submit fingerprint_reorchestrate key s')) [
          | inr (existing, k) ↦
              rw (k, reorchestrate_hydrated) (replay-Ends given id _ _ existing s s' e h)
          | inl k ↦
              rw (k, reorchestrate_hydrated)
                (persist_all-Ends given s'.runtime id key (fingerprint_reorchestrate request) w s
                  (record s' { runtime = (given s'.runtime).1 })
                  (subst (IsLogged id w) (sym e) (IsConsistent-IsLogged id s.store found h))
                  (rw found refl) (ap (event_log id) e))
        ]

  reorchestrate_record-Ends :
      (request : ReorchestrateRequest A O) (w : WorkflowRecord C) (s : ControlPlanService R C)
      → get_workflow request.workflow_id s.store ≡ some w
      → IsConsistent request.workflow_id s.store
      → Ends (runtime.stream_reorchestrate request) request.workflow_id s (
          reorchestrate_record clock runtime fingerprint_submit fingerprint_reorchestrate request w
            s)
  unfolding reorchestrate_record
  reorchestrate_record-Ends request w s found h =
      let given = runtime.stream_reorchestrate request in
      let id = request.workflow_id in
      let stored = hydrate-store request w s in
      elim (Option-cases (
        refusal clock runtime fingerprint_submit fingerprint_reorchestrate w.summary.state (
          is_stale_version clock runtime fingerprint_submit fingerprint_reorchestrate
            request.expected_plan_version w))) [
              | inr (message, k) ↦
                  rw (k, reorchestrate_record) (unchanged-Ends given id s s _ _ _ refl h)
              | inl k ↦
                  rw (k, reorchestrate_record)
                    (let (s', refused) =
                        hydrate clock runtime fingerprint_submit fingerprint_reorchestrate request w
                          s in
                      elim (Option-cases refused) [
                        | inr (response, r) ↦
                            rw (r, reorchestrate_record)
                              (unchanged-Ends given id s s' _ _ _ stored h)
                        | inl r ↦
                            rw (r, reorchestrate_record)
                              (reorchestrate_hydrated-Ends request w s s' stored found h)
                      ])
            ]

  -- Whatever the runtime answers, a re-orchestration comes to its end on every branch and leaves
  -- the workflow consistent: its events, plan versions and audit entries are numbered from one
  -- without a gap, up to what its record counts, or there are none where it has no record; and
  -- either nothing is stored and the stream is one event that the service makes itself, or the
  -- stream is what the runtime gives, and the event log of the workflow is what it was before and
  -- then these events, in their order. Where the workflow is consistent before.
  pub stream_reorchestrate-Ends :
      (request : ReorchestrateRequest A O) (s : ControlPlanService R C)
      → IsConsistent request.workflow_id s.store
      → Ends (runtime.stream_reorchestrate request) request.workflow_id s (
          stream_reorchestrate clock runtime fingerprint_submit fingerprint_reorchestrate request s)
  unfolding stream_reorchestrate
  stream_reorchestrate-Ends request s h =
      elim (Option-cases (get_workflow request.workflow_id s.store)) [
        | inl e ↦
            let events =
              rejection request.workflow_id
                (make_runtime_error "Workflow record was not found in the control plane.") in
            let e' : stream_reorchestrate clock runtime fingerprint_submit fingerprint_reorchestrate
                  request s
                ≡ some (s, events) =
              rw (e, stream_reorchestrate) refl in
            subst (Ends (runtime.stream_reorchestrate request) request.workflow_id s) (sym e') (
              unchanged-Ends (runtime.stream_reorchestrate request) request.workflow_id s s _ _ _
                refl h)
        | inr (w, e) ↦
            let e' : stream_reorchestrate clock runtime fingerprint_submit fingerprint_reorchestrate
                  request s
                ≡ reorchestrate_record clock runtime fingerprint_submit fingerprint_reorchestrate
                    request w s =
              rw (e, stream_reorchestrate) refl in
            subst (Ends (runtime.stream_reorchestrate request) request.workflow_id s) (sym e')
              (reorchestrate_record-Ends request w s e h)
      ]
