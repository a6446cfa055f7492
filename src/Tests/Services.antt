-- ===== src/Tests/Services.antt =====
-- The clock, the feed, the plan differences and the constraint index.
use task_orchestrator.Base.{
  ℕ, ℤ, pos, ◌+ℤ◌, ◌<ℤ◌, ◌≡◌, refl, inr, String, true, false, ◌&&◌, List, [], ◌∷◌, none, some, All,
  any_of, contains, insert_by, arith, ◌==◌,
}
use task_orchestrator.Data.{Time}
use task_orchestrator.Clock.{SimClock, Request, to_schedule_at, answer_all, answer, run_until}
use task_orchestrator.Clock.Order.{IsTimely, is_timeless}
use task_orchestrator.Clock.Runs.{run_until-IsTimely}
use task_orchestrator.Feed.{
  WorkflowUpdateEvent, InMemoryWorkflowUpdateFeed, make_in_memory_workflow_update_feed,
  wait_for_update,
}
use task_orchestrator.Feed.Gaps.{IsFeed, publish_all, wait_for_update_next, published-IsFeed}
use task_orchestrator.PlanDiff.{
  PlanAssignment, RuntimeApiResponse, index_assignments, diff_plan_versions,
}
use task_orchestrator.PlanDiff.Patch.{patched, patched-diff_plan_versions}
use task_orchestrator.Base.{lookup}
use task_orchestrator.ConstraintIndex.{
  OptimizerActor, OptimizerTask, OptimizationModel, new_index, successors,
}
use task_orchestrator.ConstraintIndex.Successors.{contains-successors}

-- Every callback schedules another event, which does nothing, five units later.
abbrev echo : ℕ → Time → List (Request ℕ)
echo f t = to_schedule_at (t +ℤ pos 5) none ∷ []

echo_timeless : (f : ℕ) (t : Time) → All (λ r. is_timeless r ≡ true) (echo f t)
echo_timeless f t = (refl, tt)

abbrev one_event : SimClock ℕ
one_event = record {
  now = pos 0;
  next_seq = 1;
  queue = record { at = pos 2; seq = 0; cb = some 7 } ∷ [];
}

one_event-IsTimely : IsTimely one_event
one_event-IsTimely = ((tt, tt), (omega arith, tt), (omega arith, tt))

-- The echo at 7 is left for later.
abbrev at_five : SimClock ℕ
at_five = record {
  now = pos 5;
  next_seq = 2;
  queue = record { at = pos 7; seq = 1; cb = none } ∷ [];
}

run_until-IsTimely_example :
    IsTimely at_five × (at_five.now ≡ pos 5) × All (λ e. pos 5 <ℤ e.at) at_five.queue
unfolding run_until answer_all answer insert_by ◌+ℤ◌
run_until-IsTimely_example =
    run_until-IsTimely echo echo_timeless 2 (pos 5) one_event one_event-IsTimely (omega arith) refl

published-IsFeed_example :
    IsFeed (publish_all ("a" ∷ "b" ∷ "c" ∷ []) (make_in_memory_workflow_update_feed 2))
published-IsFeed_example = published-IsFeed ("a" ∷ "b" ∷ "c" ∷ []) 2

-- Of three updates the last two are kept.
abbrev two_kept : InMemoryWorkflowUpdateFeed
two_kept = record {
  retained_events = 2;
  events =
      record { event_id = 2; workflow_id = "b" } ∷ record { event_id = 3; workflow_id = "c" } ∷ [];
  latest_event_id = 3;
  shutting_down = false;
}

wait_for_update_next_example :
    (e : WorkflowUpdateEvent) × (wait_for_update 1 two_kept two_kept ≡ some e) × (e.event_id ≡ 2)
wait_for_update_next_example =
    wait_for_update_next two_kept two_kept 1
      (record {
        lost = 1;
        numbered = (refl, (refl, refl));
        bounded = omega arith;
        filled = inr refl;
      })
      refl (omega arith) (omega arith)

abbrev crane : OptimizerActor ℤ
crane = record {
  id = "crane";
  kind = "machine";
  capacity = pos 1;
  availability_windows = [];
  capabilities = [];
  execution_cost_per_unit = pos 0;
}

abbrev work : String → List String → OptimizerTask ℤ
work id needs = record {
  id = id;
  duration = pos 1;
  release_time = pos 0;
  latest_start_time = none;
  deadline = none;
  priority = pos 0;
  demand = pos 1;
  mandatory = true;
  preemptible = false;
  allowed_actor_types = "machine" ∷ [];
  allowed_actor_ids = [];
  preferred_actor_ids = [];
  required_capabilities = [];
  dependency_task_ids = needs;
  mutually_exclusive_task_ids = [];
  actor_distances = [];
  tardiness_cost_per_unit = pos 0;
  early_start_bonus = pos 0;
}

abbrev yard : OptimizationModel ℤ
yard = record {
  id = "yard";
  actors = crane ∷ [];
  tasks = work "lift" [] ∷ work "load" ("lift" ∷ []) ∷ [];
}

contains-successors_example :
    contains "load" (successors (new_index yard) "lift")
    ≡ any_of (λ t. contains "lift" t.dependency_task_ids && t.id == "load") yard.tasks
contains-successors_example = contains-successors yard "lift" "load"

abbrev plan_of : List PlanAssignment → RuntimeApiResponse
plan_of assignments = record {
  ok = true;
  result = record {
    ok = true;
    capacity_issue = false;
    assignments = assignments;
    unfulfilled_task_ids = [];
    error_message = "";
  };
  error_message = "";
}

abbrev slot : String → ℤ → PlanAssignment
slot task_id start = record {
  task_id = task_id;
  actor_id = "crane";
  start_time = start;
  end_time = start;
}

abbrev old_plan : RuntimeApiResponse
old_plan = plan_of (slot "lift" (pos 0) ∷ slot "load" (pos 1) ∷ [])

abbrev new_plan : RuntimeApiResponse
new_plan = plan_of (slot "load" (pos 2) ∷ slot "drive" (pos 3) ∷ [])

patched-diff_plan_versions_example :
    patched (diff_plan_versions old_plan new_plan) (index_assignments old_plan) "load"
    ≡ lookup "load" (index_assignments new_plan)
patched-diff_plan_versions_example = patched-diff_plan_versions old_plan new_plan "load"

diff_test : diff_plan_versions old_plan new_plan ≡ record {
  added_assignments = slot "drive" (pos 3) ∷ [];
  removed_assignments = slot "lift" (pos 0) ∷ [];
  changed_assignments = record { before = slot "load" (pos 1); after = slot "load" (pos 2) } ∷ [];
}
unfolding diff_plan_versions lookup
diff_test = refl
