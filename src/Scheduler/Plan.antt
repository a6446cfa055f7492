-- ===== src/Scheduler/Plan.antt =====
-- The planning loop of scheduler.cpp: `collect_ready_tasks`, `order_ready_tasks` and
-- `Scheduler::plan`, with `plan_lazy`.
use Prim.Native.String.{◌++◌ as append_text}
use task_orchestrator.Base.{
  ℕ, zero, suc, String, Bool, true, false, ◌||◌, ◌&&◌, not, List, [], ◌∷◌, ◌++◌, Option, none, some,
  contains, add_id, erase_value, assign, length, lt_id, sort_by, ltb_ℤ, eqb_ℤ, ◌==◌, if◌then◌else◌,
}
use task_orchestrator.Data.{Time, Doubles}
use task_orchestrator.Workflow.{Workflow, is_empty}
use task_orchestrator.Strategy.{SchedulingStrategy}
use task_orchestrator.Scheduler.Types.{
  ActorRankingProfile, Assignment, WorkflowState, ScheduleResult, ActorRegistry, actor_ids,
  PendingTask, CandidateSelection, ReservationTable, CompletionTable,
}
use task_orchestrator.Scheduler.Eligibility.{mutex_conflict}
use task_orchestrator.Scheduler.Ranking.{select_best_candidate}
use task_orchestrator.Scheduler.Tables.{
  collect_pending_tasks, validate_supported_tasks, reserve, initialize_actor_reservations,
  initialize_completion_times,
}
use task_orchestrator.Scheduler.Order.{
  effective_ranking_profile, collect_ready_tasks, index_pending, remaining_ids,
}

-- The local variables of `Scheduler::plan` that its loops change.
pub record PlanState : Type 0 where
  pub assignments : List Assignment
  pub reasons : List (String × ℕ)
  pub reservations : ReservationTable
  pub completion_times : CompletionTable
  pub blocked_task_ids : List String
  pub remaining_task_ids : List String

module _ {D : Type 0} where
  -- `push_back` of the assignment and what goes with it.
  unfoldable pub place : PendingTask D → CandidateSelection D → PlanState → PlanState
  place task best st =
      let c = best.candidate in
      record {
        assignments =
            st.assignments
            ++ (record { task_id = task.info.id; actor_id = c.actor_id; start_time = c.start_time }
                ∷ []);
        reasons = assign task.info.id best.ranking_reason_index st.reasons;
        reservations =
            reserve c.actor_id
              (record { start = c.start_time; end = c.finish_time; demand = task.info.demand })
              st.reservations;
        completion_times = assign task.info.id c.finish_time st.completion_times;
        blocked_task_ids = add_id task.info.id st.blocked_task_ids;
        remaining_task_ids = erase_value task.info.id st.remaining_task_ids;
      }

  unfoldable pub drop_task : PendingTask D → PlanState → PlanState
  drop_task task st = record st {
    remaining_task_ids = erase_value task.info.id st.remaining_task_ids;
  }

-- What `Scheduler::plan` computes once and does not change.
pub record PlanInput (D : Type 0) : Type 0 where
  pub registry : ActorRegistry D
  pub state : WorkflowState
  pub now : Time
  pub strategy : Option SchedulingStrategy
  pub profile : ActorRankingProfile
  pub sorted_actor_ids : List String
  pub pending_by_id : List (String × PendingTask D)

module _ {D : Type 0} ⦃d : Doubles D⦄ (input : PlanInput D) where
  -- The body of the `for` loop over the ready tasks; the flag is `progress`.
  unfoldable pub visit : PendingTask D → PlanState × Bool → PlanState × Bool
  unfolding place drop_task
  visit task (st, progress) =
      if not (contains task.info.id st.remaining_task_ids)
      then (st, progress)
      else if mutex_conflict task st.blocked_task_ids
      then (drop_task task st, progress)
      else elim (select_best_candidate task input.sorted_actor_ids input.state.unavailable_actors
          input.registry input.state st.reservations st.completion_times input.now input.profile) [
            | none ↦ (drop_task task st, progress)
            | some best ↦ (place task best st, true)
          ]

  unfoldable pub visit_all : List (PendingTask D) → PlanState × Bool → PlanState × Bool
  unfolding visit
  visit_all [] s = s
  visit_all (task ∷ tasks) s = visit_all tasks (visit task s)

  abbrev pub ready_now : PlanState → List (PendingTask D)
  ready_now st =
      collect_ready_tasks input.strategy input.pending_by_id st.completion_times st.blocked_task_ids
        st.remaining_task_ids

  -- The `while` loop, on fuel: `none` means that the fuel ran out.
  unfoldable pub plan_loop : ℕ → PlanState → Option PlanState
  unfolding visit_all collect_ready_tasks
  plan_loop zero st = none
  plan_loop (suc fuel) st =
      if is_empty st.remaining_task_ids
      then some st
      else if is_empty (ready_now st)
      then some st
      else let (st', progress) = visit_all (ready_now st) (st, false) in
        elim progress [ true ↦ plan_loop fuel st' | false ↦ some st' ]

-- The order of the assignments that are returned.
abbrev pub assignment_before : Assignment → Assignment → Bool
assignment_before lhs rhs =
    ltb_ℤ lhs.start_time rhs.start_time
    || (eqb_ℤ lhs.start_time rhs.start_time
        && (lt_id lhs.task_id rhs.task_id
            || (lhs.task_id == rhs.task_id && lt_id lhs.actor_id rhs.actor_id)))

module _ {D : Type 0} ⦃d : Doubles D⦄ where
  unfoldable pub plan_input :
      Workflow D
      → WorkflowState
      → ActorRegistry D
      → Time
      → Option SchedulingStrategy
      → Option ActorRankingProfile
      → PlanInput D
  unfolding effective_ranking_profile index_pending
  plan_input workflow state registry now strategy profile = record {
    registry = registry;
    state = state;
    now = now;
    strategy = strategy;
    profile = effective_ranking_profile profile;
    sorted_actor_ids = actor_ids registry;
    pending_by_id = index_pending (collect_pending_tasks workflow state) [];
  }

  unfoldable pub plan_start : Workflow D → WorkflowState → ActorRegistry D → Time → PlanState
  unfolding remaining_ids
  plan_start workflow state registry now = record {
    assignments = [];
    reasons = [];
    reservations = initialize_actor_reservations workflow registry (actor_ids registry) state now;
    completion_times = initialize_completion_times workflow state now;
    blocked_task_ids = state.completed_tasks ++ state.assigned_tasks;
    remaining_task_ids = remaining_ids (collect_pending_tasks workflow state) [];
  }

  -- The state in which the loops of `Scheduler::plan` end. Each round but the last takes a task
  -- off the remaining ones, so that many rounds and one more are enough: see `Ends`.
  unfoldable pub plan_end :
      Workflow D
      → WorkflowState
      → ActorRegistry D
      → Time
      → Option SchedulingStrategy
      → Option ActorRankingProfile
      → PlanState
  unfolding plan_input plan_start plan_loop
  plan_end workflow state registry now strategy profile =
      let st = plan_start workflow state registry now in
      elim (plan_loop (plan_input workflow state registry now strategy profile)
        (suc (length st.remaining_task_ids)) st) [ some st' ↦ st' | none ↦ st ]

  unfoldable pub plan :
      Workflow D
      → WorkflowState
      → ActorRegistry D
      → Time
      → Option SchedulingStrategy
      → Option ActorRankingProfile
      → ScheduleResult
  unfolding plan_end validate_supported_tasks
  plan workflow state registry now strategy profile =
      if is_empty (collect_pending_tasks workflow state)
      then record {
        ok = true;
        assignments = [];
        ranking_decision_criterion_index = [];
        error_message = "";
      }
      else elim (validate_supported_tasks (collect_pending_tasks workflow state)) [
        | some task ↦ record {
          ok = false;
          assignments = [];
          ranking_decision_criterion_index = [];
          error_message =
              append_text "Preemptible tasks are not yet supported by the runtime scheduler: "
                task.info.id;
        }
        | none ↦
            let st = plan_end workflow state registry now strategy profile in
            record {
              ok = true;
              assignments = sort_by assignment_before st.assignments;
              ranking_decision_criterion_index = st.reasons;
              error_message = "";
            }
      ]

  -- The assignments that the coroutine yields, in their order.
  unfoldable pub plan_lazy :
      Workflow D
      → WorkflowState
      → ActorRegistry D
      → Time
      → Option SchedulingStrategy
      → Option ActorRankingProfile
      → List Assignment
  plan_lazy workflow state registry now strategy profile =
      (plan workflow state registry now strategy profile).assignments
