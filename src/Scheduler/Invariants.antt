-- ===== src/Scheduler/Invariants.antt =====
-- A proof rule for the loops of `Scheduler::plan`: what dropping and placing a task keep holds at
-- the end.
use mathlib.Core.Option.{some-injective}
use task_orchestrator.Base.{
  ℕ, zero, suc, ◌≡◌, sym, ◌≢◌, ◌∙◌, subst, lookup-emplace, inl, inr, String, Bool, true, false,
  List, [], ◌∷◌, Option, some, contains, lookup, emplace, eq_iff, ◌==◌, length, All, All-sort_by,
  Bool-cases, Option-cases,
}
use task_orchestrator.Data.{Time, Doubles}
use task_orchestrator.Workflow.{Workflow, is_empty}
use task_orchestrator.Strategy.{SchedulingStrategy}
use task_orchestrator.Scheduler.Types.{
  ActorRankingProfile, WorkflowState, ActorRegistry, PendingTask, CandidateSelection,
  CompletionTable,
}
use task_orchestrator.Scheduler.Eligibility.{dependency_ready_time, mutex_conflict}
use task_orchestrator.Scheduler.Ranking.{select_best_candidate}
use task_orchestrator.Scheduler.Tables.{collect_pending_tasks}
use task_orchestrator.Scheduler.Plan.{
  PlanState, place, drop_task, PlanInput, visit, visit_all, ready_now, plan_loop, plan_input,
  plan_start, plan_end,
}
use task_orchestrator.Scheduler.Order.{filter_ready, collect_ready_tasks, index_pending}

module _ {D : Type 0} where
  -- The task stands in the index of pending tasks, under its id.
  abbrev pub IsIndexed : List (String × PendingTask D) → PendingTask D → Type 0
  IsIndexed m task = lookup task.info.id m ≡ some task

  -- Every entry of the index stands under its task's id.
  abbrev pub IsIndex : List (String × PendingTask D) → Type 0
  IsIndex m = (id : String) (task : PendingTask D) → lookup id m ≡ some task → task.info.id ≡ id

  lookup-nil_none : (id : String) (task : PendingTask D) → lookup id [] ≢ some task
  unfolding lookup
  lookup-nil_none id task e = cc

  emplace-IsIndex :
      (task : PendingTask D) (m : List (String × PendingTask D))
      → IsIndex m
      → IsIndex (emplace task.info.id task m)
  emplace-IsIndex task m h id found e = elim (Bool-cases (task.info.id == id)) [
    | inl own ↦ elim (Option-cases (lookup task.info.id m)) [
      | inl absent ↦
          let same : task ≡ found =
            some-injective task found
              (rw (lookup-emplace task.info.id id task m, own, absent) at e) in
          rw (← same) ((eq_iff task.info.id id).0 own)
      | inr (old, there) ↦
          let same : old ≡ found =
            some-injective old found
              (rw (lookup-emplace task.info.id id task m, own, there) at e) in
          rw (← same) (h task.info.id old there ∙ (eq_iff task.info.id id).0 own)
    ]
    | inr other ↦ h id found (rw (lookup-emplace task.info.id id task m, other) at e)
  ]

  pub index_pending-IsIndex :
      (tasks : List (PendingTask D)) (m : List (String × PendingTask D))
      → IsIndex m
      → IsIndex (index_pending tasks m)
  unfolding index_pending
  index_pending-IsIndex [] m h = h
  index_pending-IsIndex (task ∷ tasks) m h =
      index_pending-IsIndex tasks (emplace task.info.id task m) (emplace-IsIndex task m h)

  filter_ready-IsIndexed :
      (m : List (String × PendingTask D)) (completions : CompletionTable)
      (blocked ids : List String)
      → IsIndex m
      → All (IsIndexed m) (filter_ready m completions blocked ids)
  unfolding filter_ready
  filter_ready-IsIndexed m completions blocked [] h = tt
  filter_ready-IsIndexed m completions blocked (id ∷ ids) h =
      let rest = filter_ready-IsIndexed m completions blocked ids h in
      elim (Option-cases (lookup id m)) [
        | inl e ↦ rw (e, filter_ready) rest
        | inr (task, e) ↦ elim (Bool-cases (mutex_conflict task blocked)) [
          | inl c ↦ rw (e, filter_ready, c) rest
          | inr c ↦ elim (Option-cases (dependency_ready_time task completions)) [
            | inl r ↦ rw (e, filter_ready, c, r) rest
            | inr (ready, r) ↦
                rw (e, filter_ready, c, r)
                  (subst (λ i. lookup i m ≡ some task) (sym (h id task e)) e, rest)
          ]
        ]
      ]

  collect_ready_tasks-IsIndexed :
      (strategy : Option SchedulingStrategy) (m : List (String × PendingTask D))
      (completions : CompletionTable) (blocked ids : List String)
      → IsIndex m
      → All (IsIndexed m) (collect_ready_tasks strategy m completions blocked ids)
  unfolding collect_ready_tasks
  collect_ready_tasks-IsIndexed strategy m completions blocked ids h =
      All-sort_by _ (IsIndexed m) _ (filter_ready-IsIndexed m completions blocked ids h)

-- The tests that a task has passed where it is placed.
pub record IsPlaceable {D : Type 0} ⦃d : Doubles D⦄ (input : PlanInput D) (st : PlanState)
    (task : PendingTask D) (best : CandidateSelection D) : Type 0 where
  pub indexed : IsIndexed input.pending_by_id task
  pub remains : contains task.info.id st.remaining_task_ids ≡ true
  pub no_conflict : mutex_conflict task st.blocked_task_ids ≡ false
  pub selected :
      select_best_candidate task input.sorted_actor_ids input.state.unavailable_actors
        input.registry input.state st.reservations st.completion_times input.now input.profile
      ≡ some best

module _ {D : Type 0} ⦃d : Doubles D⦄ (input : PlanInput D) (index : IsIndex input.pending_by_id)
    (P : PlanState → Type 0)
    (keep_drop : (task : PendingTask D) (st : PlanState) → P st → P (drop_task task st))
    (keep_place : (task : PendingTask D) (best : CandidateSelection D) (st : PlanState)
      → IsPlaceable input st task best
      → P st
      → P (place task best st)) where
  visit_inv :
      (task : PendingTask D) (st : PlanState) (progress : Bool)
      → IsIndexed input.pending_by_id task
      → P st
      → P (visit input task (st, progress)).0
  unfolding visit
  visit_inv task st progress i p = elim (Bool-cases (contains task.info.id st.remaining_task_ids)) [
    | inr gone ↦ rw gone p
    | inl remains ↦ elim (Bool-cases (mutex_conflict task st.blocked_task_ids)) [
      | inl conflict ↦ rw (remains, conflict) (keep_drop task st p)
      | inr free ↦
          elim (Option-cases (
            select_best_candidate task input.sorted_actor_ids input.state.unavailable_actors
              input.registry input.state st.reservations st.completion_times input.now
              input.profile)) [
                | inl e ↦ rw (remains, free, e) (keep_drop task st p)
                | inr (best, e) ↦
                    rw (remains, free, e)
                      (keep_place task best st
                        (record {
                          indexed = i;
                          remains = remains;
                          no_conflict = free;
                          selected = e;
                        })
                        p)
              ]
    ]
  ]

  visit_all_inv :
      (tasks : List (PendingTask D)) (s : PlanState × Bool)
      → All (IsIndexed input.pending_by_id) tasks
      → P s.0
      → P (visit_all input tasks s).0
  unfolding visit_all
  visit_all_inv [] s i p = p
  visit_all_inv (task ∷ tasks) (st, progress) i p =
      visit_all_inv tasks (visit input task (st, progress)) i.1 (visit_inv task st progress i.0 p)

  pub plan_loop_inv :
      (fuel : ℕ) (st : PlanState) {st' : PlanState}
      → P st
      → plan_loop input fuel st ≡ some st'
      → P st'
  unfolding plan_loop
  plan_loop_inv zero st p h = cc
  plan_loop_inv (suc fuel) st {st'} p h =
      let s = visit_all input (ready_now input st) (st, false) in
      let kept =
        visit_all_inv (ready_now input st) (st, false)
          (collect_ready_tasks-IsIndexed input.strategy input.pending_by_id st.completion_times
            st.blocked_task_ids st.remaining_task_ids index)
          p in
      elim (Bool-cases (is_empty st.remaining_task_ids)) [
        | inl e ↦ subst P (some-injective st st' (rw e at h)) p
        | inr e1 ↦ elim (Bool-cases (is_empty (ready_now input st))) [
          | inl e ↦ subst P (some-injective st st' (rw (e1, e) at h)) p
          | inr e2 ↦ elim (Bool-cases s.1) [
            | inl more ↦ plan_loop_inv fuel s.0 kept (rw (e1, e2, more) at h)
            | inr done ↦ subst P (some-injective s.0 st' (rw (e1, e2, done) at h)) kept
          ]
        ]
      ]

module _ {D : Type 0} ⦃d : Doubles D⦄ (workflow : Workflow D) (state : WorkflowState)
    (registry : ActorRegistry D) (now : Time) (strategy : Option SchedulingStrategy)
    (profile : Option ActorRankingProfile) where
  abbrev round_input : PlanInput D
  round_input = plan_input workflow state registry now strategy profile

  pub plan_input-IsIndex : IsIndex round_input.pending_by_id
  unfolding plan_input
  plan_input-IsIndex = index_pending-IsIndex (collect_pending_tasks workflow state) [] no_entry
    where
      no_entry : IsIndex {D = D} []
      no_entry id task e = absurd (lookup-nil_none id task e)

  -- What holds at the start and is kept by dropping and placing tasks holds at the end.
  pub plan_end_inv :
      (P : PlanState → Type 0)
      → ((task : PendingTask D) (st : PlanState) → P st → P (drop_task task st))
      → ((task : PendingTask D) (best : CandidateSelection D) (st : PlanState)
          → IsPlaceable round_input st task best
          → P st
          → P (place task best st))
      → P (plan_start workflow state registry now)
      → P (plan_end workflow state registry now strategy profile)
  unfolding plan_end
  plan_end_inv P keep_drop keep_place start =
      let st = plan_start workflow state registry now in
      elim (Option-cases (plan_loop round_input (suc (length st.remaining_task_ids)) st)) [
        | inl e ↦ rw (e, plan_end) start
        | inr (st', e) ↦
            rw (e, plan_end)
              (plan_loop_inv round_input plan_input-IsIndex P keep_drop keep_place
                (suc (length st.remaining_task_ids)) st start e)
      ]
