-- ===== src/Feed.antt =====
-- control_plane/include/control_plane/service/workflow_update_feed.hpp and
-- control_plane/src/service/workflow_update_feed.cpp: the feed of workflow updates. Each operation
-- runs under the feed's lock, so it is one step of the state.
pub mod Gaps
use task_orchestrator.Base.{
  ℕ, suc, ◌+◌, ltb, String, Bool, true, false, ◌||◌, not, List, [], ◌∷◌, ◌++◌, Option, none, some,
  find_if, length, if◌then◌else◌,
}

pub record WorkflowUpdateEvent : Type 0 where
  pub event_id : ℕ
  pub workflow_id : String

pub record InMemoryWorkflowUpdateFeed : Type 0 where
  pub retained_events : ℕ
  pub events : List WorkflowUpdateEvent
  pub latest_event_id : ℕ
  pub shutting_down : Bool

-- `std::max(1, retained_events)`.
unfoldable pub make_in_memory_workflow_update_feed : ℕ → InMemoryWorkflowUpdateFeed
make_in_memory_workflow_update_feed retained_events = record {
  retained_events = if ltb 1 retained_events then retained_events else 1;
  events = [];
  latest_event_id = 0;
  shutting_down = false;
}

-- `while (events_.size() > retained_events_) events_.pop_front()`.
unfoldable pub pop_excess : ℕ → List WorkflowUpdateEvent → List WorkflowUpdateEvent
pop_excess retained [] = []
pop_excess retained (e ∷ es) =
    let rest = pop_excess retained es in if ltb retained (length (e ∷ es)) then rest else e ∷ es

unfoldable pub publish :
    String → InMemoryWorkflowUpdateFeed → InMemoryWorkflowUpdateFeed × WorkflowUpdateEvent
unfolding pop_excess
publish workflow_id feed =
    let event : WorkflowUpdateEvent = record {
      event_id = feed.latest_event_id + 1;
      workflow_id = workflow_id;
    } in
    (
      record feed {
        latest_event_id = feed.latest_event_id + 1;
        events = pop_excess feed.retained_events (feed.events ++ event ∷ []);
      },
      event,
    )

unfoldable pub shutdown : InMemoryWorkflowUpdateFeed → InMemoryWorkflowUpdateFeed
shutdown feed = record feed { shutting_down = true }

-- The predicate that a waiting thread waits for.
abbrev pub ready : ℕ → InMemoryWorkflowUpdateFeed → Bool
ready after_event_id feed = feed.shutting_down || ltb after_event_id feed.latest_event_id

-- What `wait_for_update` returns once the predicate holds.
unfoldable pub newer_event : ℕ → InMemoryWorkflowUpdateFeed → Option WorkflowUpdateEvent
newer_event after_event_id feed =
    if feed.shutting_down then none else find_if (λ e. ltb after_event_id e.event_id) feed.events

-- The feed when the wait starts, and the feed when it ends, which is when the predicate holds or
-- the time is over.
unfoldable pub wait_for_update :
    ℕ → InMemoryWorkflowUpdateFeed → InMemoryWorkflowUpdateFeed → Option WorkflowUpdateEvent
unfolding newer_event
wait_for_update after_event_id feed woken =
    if ready after_event_id feed
    then newer_event after_event_id feed
    else if not (ready after_event_id woken)
    then none
    else newer_event after_event_id woken
