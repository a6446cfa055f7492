-- ===== src/ControlPlane/Events.antt =====
-- control_plane/src/service/control_plan_service.cpp: the responses and events that it makes, and the loop
-- that stores the runtime's events. A stream is read to its end: it is the list of its events, and the
-- service after them.
use task_orchestrator.Base.{
  ℕ, ◌+◌, ℤ, pos, String, ◌==◌, false, not, ◌||◌, List, [], ◌∷◌, Option, none, some, or_default,
  if◌then◌else◌, ◌>>=◌,
}
use task_orchestrator.PlanDiff.{RuntimeApiResponse}
use task_orchestrator.ControlPlane.Messages.{
  WorkflowLifecycleState, submitted, planning, planned, failed, WorkflowEventType,
  unspecified_event, request_rejected, workflow_accepted, runtime_override_applied, task_completed,
  replanning_started, task_planned, run_finished, WorkflowRecord, WorkflowEvent,
}
use task_orchestrator.ControlPlane.Store.{
  SqliteWorkflowStore, upsert_workflow, write_event, write_plan_version, put_idempotency_record,
}
use task_orchestrator.ControlPlane.Service.{
  ControlPlanService, publish_workflow_update, with_store, read_clock,
}

unfoldable pub make_runtime_error : String → RuntimeApiResponse
make_runtime_error message = record {
  ok = false;
  result = record {
    ok = false;
    capacity_issue = false;
    assignments = [];
    unfulfilled_task_ids = [];
    error_message = message;
  };
  error_message = message;
}

unfoldable pub make_response_event :
    WorkflowEventType → String → RuntimeApiResponse → String → WorkflowEvent
make_response_event kind id response detail = record {
  kind = kind;
  workflow_id = id;
  task_id = "";
  actor_id = "";
  start_time = pos 0;
  end_time = pos 0;
  detail = detail;
  response = some response;
}

-- A stream that ends at once with a request that is rejected.
abbrev pub rejection : String → RuntimeApiResponse → List WorkflowEvent
rejection id response = make_response_event request_rejected id response response.error_message ∷ []

-- The response of the last event that has one, or else the response so far.
unfoldable pub final_response : RuntimeApiResponse → List WorkflowEvent → RuntimeApiResponse
final_response so_far [] = so_far
final_response so_far (event ∷ events) = final_response (or_default so_far event.response) events

unfoldable pub consume_final_response : List WorkflowEvent → RuntimeApiResponse
unfolding final_response make_runtime_error
consume_final_response events = final_response (make_runtime_error "") events

unfoldable pub state_for_terminal_response : RuntimeApiResponse → WorkflowLifecycleState
state_for_terminal_response response =
    if not response.ok || not response.result.ok then failed else planned

abbrev pub state_for_kind :
    WorkflowEventType → Option RuntimeApiResponse → WorkflowLifecycleState → WorkflowLifecycleState
state_for_kind workflow_accepted response current = submitted
state_for_kind replanning_started response current = planning
state_for_kind task_planned response current = planned
state_for_kind run_finished none current = current
state_for_kind run_finished (some response) current = state_for_terminal_response response
state_for_kind request_rejected response current = failed
state_for_kind runtime_override_applied response current = current
state_for_kind task_completed response current = current
state_for_kind unspecified_event response current = current

unfoldable pub state_for_event : WorkflowEvent → WorkflowLifecycleState → WorkflowLifecycleState
unfolding state_for_terminal_response
state_for_event event current = state_for_kind event.kind event.response current

module _ {C : Type 0} where
  -- The first changes to the record in the loop over the events.
  unfoldable pub count_event : WorkflowEvent → ℤ → WorkflowRecord C → WorkflowRecord C
  unfolding state_for_event
  count_event event now w = record w {
    summary = record (w.summary) {
      updated_at_unix_ms = now;
      total_event_count = w.summary.total_event_count + 1;
      state = state_for_event event w.summary.state;
    };
  }

  abbrev pub with_error : String → WorkflowRecord C → WorkflowRecord C
  with_error message w = record w { summary = record (w.summary) { last_error_message = message } }

  -- What a response leaves in the record, and the plan version that is written where it is a plan.
  unfoldable pub note_response :
      String
      → ℤ
      → RuntimeApiResponse
      → WorkflowRecord C
      → SqliteWorkflowStore C
      → Option (WorkflowRecord C × SqliteWorkflowStore C)
  unfolding write_plan_version
  note_response id now response w store =
      let w1 : WorkflowRecord C = record w { latest_response = some response } in
      if not response.ok
      then some (with_error response.error_message w1, store)
      else if not response.result.ok
      then some (with_error response.result.error_message w1, store)
      else do
        store' ←
            write_plan_version id
              (record {
                version = w.summary.latest_plan_version + 1;
                recorded_at_unix_ms = now;
                response = response;
              })
              store
        some (
          record w1 {
            summary = record (w1.summary) {
              last_error_message = "";
              latest_plan_version = w.summary.latest_plan_version + 1;
            };
          },
          store',
        )

  -- A response is kept for the key of its request, where the request has one.
  unfoldable pub cache_response :
      String
      → String
      → String
      → ℤ
      → RuntimeApiResponse
      → SqliteWorkflowStore C
      → Option (SqliteWorkflowStore C)
  unfolding put_idempotency_record
  cache_response id key fingerprint now response store =
      if key == ""
      then some store
      else put_idempotency_record
          (record {
            key = key;
            workflow_id = id;
            request_fingerprint = fingerprint;
            recorded_at_unix_ms = now;
            cached_response = response;
          })
          store

  unfoldable pub note_event :
      String
      → String
      → String
      → ℤ
      → Option RuntimeApiResponse
      → WorkflowRecord C
      → SqliteWorkflowStore C
      → Option (WorkflowRecord C × SqliteWorkflowStore C)
  unfolding note_response cache_response
  note_event id key fingerprint now none w store = some (w, store)
  note_event id key fingerprint now (some response) w store = do
    noted ← note_response id now response w store
    store' ← cache_response id key fingerprint now response noted.1
    some (noted.0, store')

module _ {R C : Type 0} (clock : ℕ → ℤ) (id key fingerprint : String) where
  -- The body of the loop over the runtime's events.
  unfoldable pub persist :
      WorkflowEvent
      → WorkflowRecord C
      → ControlPlanService R C
      → Option (WorkflowRecord C × ControlPlanService R C)
  unfolding count_event note_event write_event upsert_workflow publish_workflow_update
  persist event w s =
      let (now, s1) = read_clock clock s in
      do
        noted ← note_event id key fingerprint now event.response (count_event event now w) s1.store
        store ←
            write_event id
              (record {
                sequence = noted.0.summary.total_event_count;
                recorded_at_unix_ms = now;
                event = event;
              })
              noted.1
        some (noted.0, publish_workflow_update id (with_store (upsert_workflow noted.0 store) s1))

  unfoldable pub persist_all :
      List WorkflowEvent
      → WorkflowRecord C
      → ControlPlanService R C
      → Option (ControlPlanService R C)
  unfolding persist
  persist_all [] w s = some s
  persist_all (event ∷ events) w s = do next ← persist event w s; persist_all events next.0 next.1
