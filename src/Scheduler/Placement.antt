-- ===== src/Scheduler/Placement.antt =====
-- Every assignment of `Scheduler::plan` meets the constraints on its task and its actor.
use mathlib.Core.Logic.{◌⊎◌}
use task_orchestrator.Base.{
  none, pos, ◌+ℤ◌, ◌≤ℤ◌, ◌<ℤ◌, max_ℤ, max_ℤ-bounds, ◌≡◌, refl, sym, subst, ◌∙◌, inl, inr, String,
  false, [], Option, some, contains, lookup, lookup-assign, eq_iff, ◌==◌, arith, All, Any,
  All-append, All-sort_by, sort_by, Bool-cases, Option-cases,
}
use mathlib.Core.Option.{some-injective}
use task_orchestrator.Data.{Time, Doubles}
use task_orchestrator.Actor.{Actor}
use task_orchestrator.Actor.Availability.{FitsIn}
use task_orchestrator.Workflow.{Workflow, is_empty}
use task_orchestrator.Strategy.{SchedulingStrategy}
use task_orchestrator.Scheduler.Types.{
  ActorRankingProfile, Assignment, WorkflowState, ActorRegistry, add, get, PendingTask,
  CandidateSelection,
}
use task_orchestrator.Scheduler.Capacity.Starts.{earliest_start_room}
use task_orchestrator.Scheduler.Eligibility.{effective_release_time, effective_latest_start_time}
use task_orchestrator.Scheduler.Allowed.{IsAllowed, actor_is_allowed-IsAllowed}
use task_orchestrator.Scheduler.Ranking.{is_after}
use task_orchestrator.Scheduler.Tables.{collect_pending_tasks, validate_supported_tasks}
use task_orchestrator.Scheduler.Plan.{
  PlanState, place, drop_task, PlanInput, plan_input, plan_start, plan_end, assignment_before, plan,
}
use task_orchestrator.Scheduler.Selection.{select_best_candidate-IsCandidate}
use task_orchestrator.Scheduler.Invariants.{IsPlaceable, plan_end_inv}

-- Every actor of the registry stands under its own id.
abbrev pub IsRegistry : {D : Type 0} → ActorRegistry D → Type 0
IsRegistry {D} r = (id : String) (a : Actor D) → get id r ≡ some a → a.id ≡ id

pub add-IsRegistry :
    {D : Type 0} (a : Actor D) (r : ActorRegistry D) → IsRegistry r → IsRegistry (add a r)
unfolding add get
add-IsRegistry a r h id found e = elim (Bool-cases (a.id == id)) [
  | inl own ↦
      let same : a ≡ found =
        some-injective a found (rw (lookup-assign a.id id a r.actors, own) at e) in
      rw (← same) ((eq_iff a.id id).0 own)
  | inr other ↦ h id found (rw (lookup-assign a.id id a r.actors, other) at e)
]

-- The assignment is of a pending task to an actor that may do it, at a time that both allow.
pub record IsPlaced {D : Type 0} (input : PlanInput D) (a : Assignment) : Type 0 where
  pub task : PendingTask D
  pub pending : lookup a.task_id input.pending_by_id ≡ some task
  pub actor : Actor D
  pub registered : get a.actor_id input.registry ≡ some actor
  pub available : contains a.actor_id input.state.unavailable_actors ≡ false
  pub allowed : IsAllowed task actor input.state
  pub not_past : input.now ≤ℤ a.start_time
  pub released : effective_release_time task input.state ≤ℤ a.start_time
  pub in_time : (limit : Time) → task.info.latest_start_time ≡ some limit → a.start_time ≤ℤ limit
  pub meets_deadline :
      (limit : Time) → task.info.deadline ≡ some limit → a.start_time +ℤ task.info.duration ≤ℤ limit
  pub in_window :
      pos 0 <ℤ task.info.duration
      → Any (FitsIn a.start_time task.info.duration) actor.availability_windows

module _ {D : Type 0} ⦃d : Doubles D⦄ (input : PlanInput D)
    (registry : IsRegistry input.registry) where
  is_after-le :
      (t : Time) (o : Option Time)
      → is_after t o ≡ false
      → (limit : Time) → o ≡ some limit
      → t ≤ℤ limit
  is_after-le t none h limit e = cc
  is_after-le t (some l) h limit e = subst (λ x. t ≤ℤ x) (some-injective l limit e) (ground arith)

  placed :
      (task : PendingTask D) (best : CandidateSelection D) (st : PlanState)
      → IsPlaceable input st task best
      → IsPlaced input (record {
        task_id = task.info.id;
        actor_id = best.candidate.actor_id;
        start_time = best.candidate.start_time;
      })
  unfolding effective_latest_start_time
  placed task best st ok =
      let (ready, _, c) =
        select_best_candidate-IsCandidate task input.state.unavailable_actors input.registry
          input.state st.reservations input.sorted_actor_ids st.completion_times input.now
          input.profile ok.selected in
      let key : c.key ≡ best.candidate.actor_id =
        sym (registry c.key c.actor c.registered) ∙ sym c.named in
      let room =
        earliest_start_room c.actor _ _ task.info.duration task.info.demand c.start_found in
      let now_release = max_ℤ-bounds input.now (effective_release_time task input.state) in
      let both = max_ℤ-bounds (max_ℤ input.now (effective_release_time task input.state)) ready in
      record {
        task = task;
        pending = ok.indexed;
        actor = c.actor;
        registered = subst (λ k. get k input.registry ≡ some c.actor) key c.registered;
        available = subst (λ k. contains k input.state.unavailable_actors ≡ false) key c.available;
        allowed = actor_is_allowed-IsAllowed task c.actor input.state c.allowed;
        not_past = omega (arith, room.0, now_release.0, both.0);
        released = omega (arith, room.0, now_release.1, both.0);
        in_time =
            is_after-le best.candidate.start_time (effective_latest_start_time task) c.in_time;
        meets_deadline =
            is_after-le (best.candidate.start_time +ℤ task.info.duration) task.info.deadline
              (rw (← c.finish_time) c.meets_deadline);
        in_window = room.1;
      }

module _ {D : Type 0} ⦃d : Doubles D⦄ (workflow : Workflow D) (state : WorkflowState)
    (registry : ActorRegistry D) (now : Time) (strategy : Option SchedulingStrategy)
    (profile : Option ActorRankingProfile) where
  abbrev pub planned_input : PlanInput D
  planned_input = plan_input workflow state registry now strategy profile

  plan_end-IsPlaced :
      IsRegistry registry
      → All
          (IsPlaced planned_input)
          (plan_end workflow state registry now strategy profile).assignments
  unfolding plan_start plan_input place drop_task
  plan_end-IsPlaced keyed =
      plan_end_inv workflow state registry now strategy profile
        (λ st. All (IsPlaced planned_input) st.assignments) (λ task st h. h)
        (λ task best st ok h.
          All-append (IsPlaced planned_input) st.assignments _ h
            (placed planned_input keyed task best st ok, tt))
        tt

  -- `Scheduler::plan` returns no assignments, or those that its loops make, in order.
  pub plan-assignments :
      ((plan workflow state registry now strategy profile).assignments ≡ [])
      ⊎ ((plan workflow state registry now strategy profile).assignments
          ≡ sort_by assignment_before
              (plan_end workflow state registry now strategy profile).assignments)
  unfolding plan
  plan-assignments = elim (Bool-cases (is_empty (collect_pending_tasks workflow state))) [
    | inl e ↦ inl (rw (e, plan) refl)
    | inr e1 ↦
        elim (Option-cases (validate_supported_tasks (collect_pending_tasks workflow state))) [
          | inl e ↦ inr (rw (e1, plan, e) refl)
          | inr (task, e) ↦ inl (rw (e1, plan, e) refl)
        ]
  ]

  -- What holds of every assignment that the loops make holds of every one that is returned.
  pub All-plan :
      (P : Assignment → Type 0)
      → All P (plan_end workflow state registry now strategy profile).assignments
      → All P (plan workflow state registry now strategy profile).assignments
  All-plan P h = elim plan-assignments [
    | inl e ↦ rw e tt
    | inr e ↦ rw e (All-sort_by assignment_before P _ h)
  ]

  -- Each assignment of Scheduler::plan is of a pending task to a registered actor that is
  -- available, is on the task's list of actors, is of an allowed type, and has the capabilities
  -- and the capacity that the task asks for; it starts not before now and the task's release, by
  -- its latest start, and ends by its deadline, within one of the actor's windows if the task
  -- takes time; where every actor is registered under its own id.
  pub plan-IsPlaced :
      IsRegistry registry
      → All (IsPlaced planned_input) (plan workflow state registry now strategy profile).assignments
  plan-IsPlaced keyed = All-plan (IsPlaced planned_input) (plan_end-IsPlaced keyed)
