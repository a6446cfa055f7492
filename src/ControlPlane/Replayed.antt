-- ===== src/ControlPlane/Replayed.antt =====
-- control_plan_service.cpp: a submission that is sent again with its key is answered from the store.
use mathlib.Core.Option.{some-injective}
use task_orchestrator.Base.{
  ℕ, ℤ, ◌≡◌, refl, sym, ap, subst, ◌⊎◌, inl, inr, String, ◌==◌, eq_refl, Bool, true, false, List,
  [], ◌∷◌, Option, none, some, is_some, find_if, Bool-cases, if◌then◌else◌, ◌>>=◌, or_default, Any,
  add_id,
}
use task_orchestrator.PlanDiff.{RuntimeApiResponse}
use task_orchestrator.ControlPlane.Messages.{
  run_finished, WorkflowRecord, WorkflowEvent, WorkflowEventRecord, IdempotencyRecord,
  SubmitWorkflowRequest, ReorchestrateRequest,
}
use task_orchestrator.ControlPlane.Store.{
  IdempotencyRow, SqliteWorkflowStore, insert_or_replace, upsert_workflow, get_workflow,
  is_referenced, write_event, put_idempotency_record, get_idempotency_record,
}
use task_orchestrator.ControlPlane.Service.{
  WorkflowRuntimeService, ControlPlanService, publish_workflow_update, with_store, read_clock,
}
use task_orchestrator.ControlPlane.Streams.{
  replay, submit_anew, stream_submit_workflow, accepted_record, first_record,
}
use task_orchestrator.ControlPlane.Events.{
  make_runtime_error, make_response_event, rejection, final_response, consume_final_response,
  count_event, note_response, cache_response, note_event, persist, persist_all,
}
use task_orchestrator.ControlPlane.Recorded.{publish_workflow_update-store}

-- A chain that succeeds has a first step that succeeds.
>>=-inverse :
    {A B : Type 0} (m : Option A) (f : A → Option B) {b : B}
    → (m >>= f) ≡ some b
    → (a : A) × (m ≡ some a) × (f a ≡ some b)
>>=-inverse none f h = absurd (cc (h))
>>=-inverse (some a) f h = (a, refl, h)

find_if-insert_or_replace :
    {A : Type 0} (p : A → Bool) (x : A) (xs : List A)
    → p x ≡ true
    → find_if p (insert_or_replace p x xs) ≡ some x
find_if-insert_or_replace p x [] h = rw h refl
find_if-insert_or_replace p x (y ∷ ys) h = elim (Bool-cases (p y)) [
  | inl e ↦ rw e (find_if-insert_or_replace p x ys h)
  | inr e ↦ rw (e, e) (find_if-insert_or_replace p x ys h)
]

module _ {C : Type 0} (id key fingerprint : String) where
  -- The response that is kept for the key, with the request's fingerprint.
  abbrev IsKept : RuntimeApiResponse → SqliteWorkflowStore C → Type 0
  IsKept response store =
      (r : IdempotencyRecord) × (get_idempotency_record key store ≡ some r)
      × (r.request_fingerprint ≡ fingerprint)
      × (r.cached_response ≡ response)

  same-IsKept :
      (response : RuntimeApiResponse) (store store' : SqliteWorkflowStore C)
      → store'.idempotency_records ≡ store.idempotency_records
      → IsKept response store
      → IsKept response store'
  unfolding get_idempotency_record
  same-IsKept response store store' e (r, found, f, c) =
      (r, rw (e, get_idempotency_record) found, f, c)

  cache_response-IsKept :
      (now : ℤ) (response : RuntimeApiResponse) (store store' : SqliteWorkflowStore C)
      → (key == "") ≡ false
      → cache_response id key fingerprint now response store ≡ some store'
      → IsKept response store'
  unfolding cache_response put_idempotency_record get_workflow get_idempotency_record
  cache_response-IsKept now response store store' k h =
      let r : IdempotencyRecord = record {
        key = key;
        workflow_id = id;
        request_fingerprint = fingerprint;
        recorded_at_unix_ms = now;
        cached_response = response;
      } in
      let row : IdempotencyRow = record { boot_id = store.current_boot_id; message = r } in
      elim (Bool-cases (is_referenced id store)) [
        | inl e ↦
            let stored = some-injective _ store' (rw (k, e) at h) in
            subst (IsKept response) stored (
              r,
              rw
                  (find_if-insert_or_replace (λ (x : IdempotencyRow). x.message.key == key) row
                    store.idempotency_records (eq_refl key))
                  refl,
              refl,
              refl,
            )
        | inr e ↦ absurd (cc (rw (k, e) at h))
      ]

  write_event-idempotency_records :
      (event : WorkflowEventRecord) (store store' : SqliteWorkflowStore C)
      → write_event id event store ≡ some store'
      → store'.idempotency_records ≡ store.idempotency_records
  unfolding write_event
  write_event-idempotency_records event store store' h =
      elim (Bool-cases (is_referenced id store)) [
        | inl e ↦
            ap SqliteWorkflowStore.idempotency_records (sym (some-injective _ store' (rw e at h)))
        | inr e ↦ absurd (cc (rw e at h))
      ]

  note_event-IsKept :
      (so_far : RuntimeApiResponse) (now : ℤ) (response : Option RuntimeApiResponse)
      (w w' : WorkflowRecord C) (store store' : SqliteWorkflowStore C)
      → (key == "") ≡ false
      → IsKept so_far store ⊎ (is_some response ≡ true)
      → note_event id key fingerprint now response w store ≡ some (w', store')
      → IsKept (or_default so_far response) store'
  unfolding note_event
  note_event-IsKept so_far now none w w' store store' k (inl kept) h =
      subst (IsKept so_far) (ap (λ x. x.1) (some-injective (w, store) (w', store') h)) kept
  note_event-IsKept so_far now none w w' store store' k (inr missing) h = absurd (cc (missing))
  note_event-IsKept so_far now (some response) w w' store store' k kept h =
      let (noted, _, h1) = >>=-inverse (note_response id now response w store) _ h in
      let (store2, e2, h2) =
        >>=-inverse (cache_response id key fingerprint now response noted.1) _ h1 in
      subst (IsKept response) (ap (λ x. x.1) (some-injective (noted.0, store2) (w', store') h2))
        (cache_response-IsKept now response noted.1 store2 k e2)

module _ {R C : Type 0} (clock : ℕ → ℤ) (id key fingerprint : String) where
  persist-IsKept :
      (so_far : RuntimeApiResponse) (event : WorkflowEvent) (w w' : WorkflowRecord C)
      (s s' : ControlPlanService R C)
      → (key == "") ≡ false
      → IsKept id key fingerprint so_far s.store ⊎ (is_some event.response ≡ true)
      → persist clock id key fingerprint event w s ≡ some (w', s')
      → IsKept id key fingerprint (or_default so_far event.response) s'.store
  unfolding persist upsert_workflow
  persist-IsKept so_far event w w' s s' k kept h =
      let now = clock s.readings in
      let response = or_default so_far event.response in
      let (noted, e1, h1) =
        >>=-inverse
          (note_event id key fingerprint now event.response (count_event event now w) s.store) _
          h in
      let (store2, e2, h2) = >>=-inverse (write_event id _ noted.1) _ h1 in
      let s2 = with_store (upsert_workflow noted.0 store2) (read_clock clock s).1 in
      let e : publish_workflow_update id s2 ≡ s' =
        ap (λ x. x.1) (some-injective (noted.0, publish_workflow_update id s2) (w', s') h2) in
      subst (λ (x : ControlPlanService R C). IsKept id key fingerprint response x.store) e
        (subst (IsKept id key fingerprint response) (sym (publish_workflow_update-store id s2)) (
          same-IsKept id key fingerprint response noted.1 (upsert_workflow noted.0 store2)
            (write_event-idempotency_records id key fingerprint _ noted.1 store2 e2)
            (note_event-IsKept id key fingerprint so_far now event.response
              (count_event event now w) noted.0 s.store noted.1 k kept e1)))

  persist_all-IsKept :
      (so_far : RuntimeApiResponse) (events : List WorkflowEvent) (w : WorkflowRecord C)
      (s s' : ControlPlanService R C)
      → (key == "") ≡ false
      → IsKept id key fingerprint so_far s.store
        ⊎ Any (λ (event : WorkflowEvent). is_some event.response ≡ true) events
      → persist_all clock id key fingerprint events w s ≡ some s'
      → IsKept id key fingerprint (final_response so_far events) s'.store
  unfolding persist_all final_response
  persist_all-IsKept so_far [] w s s' k (inl kept) h =
      subst (λ (x : ControlPlanService R C). IsKept id key fingerprint so_far x.store)
        (some-injective s s' h) kept
  persist_all-IsKept so_far [] w s s' k (inr x) h = elim x [ ]
  persist_all-IsKept so_far (event ∷ events) w s s' k kept h =
      let (next, e1, h1) = >>=-inverse (persist clock id key fingerprint event w s) _ h in
      persist_all-IsKept (or_default so_far event.response) events next.0 next.1 s' k
        (elim kept [
          | inl kept ↦ inl (persist-IsKept so_far event w next.0 s next.1 k (inl kept) e1)
          | inr (inl now) ↦ inl (persist-IsKept so_far event w next.0 s next.1 k (inr now) e1)
          | inr (inr later) ↦ inr later
        ])
        h1

  streamed-IsKept :
      (events events' : List WorkflowEvent) (w : WorkflowRecord C) (s s' : ControlPlanService R C)
      → (key == "") ≡ false
      → Any (λ (event : WorkflowEvent). is_some event.response ≡ true) events'
      → ◌>>=◌ {B = ControlPlanService R C × List WorkflowEvent}
          (persist_all clock id key fingerprint events w s)
          (λ s''. some (s'', events))
        ≡ some (s', events')
      → IsKept id key fingerprint (consume_final_response events') s'.store
  unfolding consume_final_response
  streamed-IsKept events events' w s s' k responds h =
      let (s2, e, h2) = >>=-inverse (persist_all clock id key fingerprint events w s) _ h in
      let same = some-injective (s2, events) (s', events') h2 in
      subst
        (λ (x : ControlPlanService R C).
          IsKept id key fingerprint (consume_final_response events') x.store)
        (ap (λ x. x.0) same)
        (persist_all-IsKept (make_runtime_error "") events' w s s2 k (inr responds) (
          subst (λ l. persist_all clock id key fingerprint l w s ≡ some s2) (ap (λ x. x.1) same) e))

module _ {R C A O : Type 0} (clock : ℕ → ℤ) (runtime : WorkflowRuntimeService R C A O)
    (fingerprint_submit : SubmitWorkflowRequest C A → String)
    (fingerprint_reorchestrate : ReorchestrateRequest A O → String) where
  submit_anew-IsKept :
      (request : SubmitWorkflowRequest C A) (key fingerprint : String)
      (s s' : ControlPlanService R C) (events : List WorkflowEvent)
      → (key == "") ≡ false
      → Any (λ (event : WorkflowEvent). is_some event.response ≡ true) events
      → submit_anew clock runtime fingerprint_submit fingerprint_reorchestrate request key
          fingerprint s
        ≡ some (s', events)
      → IsKept request.config.id key fingerprint (consume_final_response events) s'.store
  unfolding submit_anew
  submit_anew-IsKept request key fingerprint s s' events k responds h =
      let id = request.config.id in
      let (now, s1) = read_clock clock s in
      let w =
        accepted_record clock runtime fingerprint_submit fingerprint_reorchestrate request now (
          first_record clock runtime fingerprint_submit fingerprint_reorchestrate request now
            s.store) in
      let s2 = publish_workflow_update id (with_store (upsert_workflow w s.store) s1) in
      let (produced, runtime') = runtime.stream_submit_workflow request s2.runtime in
      streamed-IsKept clock id key fingerprint produced events w
        (record s2 { hydrated_workflows = add_id id s2.hydrated_workflows; runtime = runtime' }) s'
        k responds h

  -- What a submission whose key is kept answers: the response that is kept, or that its payload is
  -- another.
  abbrev pub again_events :
      SubmitWorkflowRequest C A
      → SubmitWorkflowRequest C A
      → List WorkflowEvent
      → List WorkflowEvent
  again_events request again events =
      if fingerprint_submit request == fingerprint_submit again
      then make_response_event run_finished again.config.id (consume_final_response events)
          "Idempotent replay served from durable control plane."
        ∷ []
      else rejection again.config.id
          (make_runtime_error "Idempotency key was reused for a different request payload.")

  -- After a submission with a key that was not known, of which some event has a response, another
  -- submission with the key is answered with the last of these responses, if it has the
  -- fingerprint of the first, and is rejected if not; it stores nothing either way.
  pub stream_submit_workflow-again :
      (request again : SubmitWorkflowRequest C A) (key : String) (s s' : ControlPlanService R C)
      (events : List WorkflowEvent)
      → or_default "" request.idempotency_key ≡ key
      → or_default "" again.idempotency_key ≡ key
      → (key == "") ≡ false
      → get_idempotency_record key s.store ≡ none
      → Any (λ (event : WorkflowEvent). is_some event.response ≡ true) events
      → stream_submit_workflow clock runtime fingerprint_submit fingerprint_reorchestrate request s
        ≡ some (s', events)
      → stream_submit_workflow clock runtime fingerprint_submit fingerprint_reorchestrate again s'
        ≡ some (s', again_events request again events)
  unfolding stream_submit_workflow replay
  stream_submit_workflow-again request again key s s' events e1 e2 k unknown responds h =
      let (r, found, f, c) =
        submit_anew-IsKept request key (fingerprint_submit request) s s' events k responds
          (rw (e1, k, unknown, e1, stream_submit_workflow) at h) in
      elim (Bool-cases (fingerprint_submit request == fingerprint_submit again)) [
        | inl same ↦ rw (e2, k, found, f, c, same, stream_submit_workflow, replay) refl
        | inr other ↦ rw (e2, k, found, f, other, stream_submit_workflow, replay) refl
      ]
