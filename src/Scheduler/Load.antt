-- ===== src/Scheduler/Load.antt =====
-- The load of an actor under the assignments that `Scheduler::plan` returns.
use mathlib.Core.List.{append-nil}
use task_orchestrator.Base.{
  max_ℤ-bounds, ℤ, pos, ◌+ℤ◌, ◌≤ℤ◌, max_ℤ, +ℤ_parts, eq_of_parts, ◌≡◌, refl, sym, ap, ◌∙◌, inl, inr,
  String, Bool, true, false, ◌&&◌, List, [], ◌∷◌, ◌++◌, Option, none, some, lookup, ◌==◌, arith,
  insert_by, sort_by, Bool-cases, Option-cases, if◌then◌else◌,
}
use task_orchestrator.Data.{Time, Doubles}
use task_orchestrator.Actor.{Actor}
use task_orchestrator.Workflow.{Workflow, is_empty}
use task_orchestrator.Strategy.{SchedulingStrategy}
use task_orchestrator.Scheduler.Types.{
  ActorRankingProfile, Assignment, WorkflowState, ActorRegistry, actor_ids, get, PendingTask,
  ScheduledInterval, ReservationTable,
}
use task_orchestrator.Scheduler.Capacity.{demand_from, concurrent_demand_at}
use task_orchestrator.Scheduler.Capacity.Demand.{is_active}
use task_orchestrator.Scheduler.Ranking.{reservations_of}
use task_orchestrator.Scheduler.Tables.{
  collect_pending_tasks, validate_supported_tasks, initialize_actor_reservations,
}
use task_orchestrator.Scheduler.Plan.{
  drop_task, plan_input, plan_start, plan_end, assignment_before, plan,
}
use task_orchestrator.Scheduler.Invariants.{plan_end_inv}
use task_orchestrator.Scheduler.Placement.{IsRegistry, planned_input}
use task_orchestrator.Scheduler.Booking.{
  booked_as, booked, WithinCapacity, place-WithinCapacity, IsBooked, place-IsBooked,
}

+ℤ-zero : (a : ℤ) → a +ℤ pos 0 ≡ a
+ℤ-zero a = omega (arith, +ℤ_parts a (pos 0), eq_of_parts)

+ℤ_right_comm : (a b c : ℤ) → a +ℤ b +ℤ c ≡ a +ℤ c +ℤ b
+ℤ_right_comm a b c = omega (arith, +ℤ_parts, eq_of_parts)

module _ {D : Type 0} (m : List (String × PendingTask D)) (id : String) (t : Time) where
  -- The demand that an assignment adds at `t`.
  abbrev added : Assignment → ℤ
  added a = elim (lookup a.task_id m) [
    | none ↦ pos 0
    | some task ↦
        if a.actor_id == id && is_active (booked_as a task) t then task.info.demand else pos 0
  ]

  booked-own :
      (a : Assignment) (xs : List Assignment) (task : PendingTask D)
      → lookup a.task_id m ≡ some task
      → (a.actor_id == id) ≡ true
      → booked m id (a ∷ xs) ≡ booked_as a task ∷ booked m id xs
  booked-own a xs task e own = rw (e, booked, own)

  added_busy :
      (a : Assignment) (task : PendingTask D)
      → lookup a.task_id m ≡ some task
      → (a.actor_id == id) ≡ true
      → is_active (booked_as a task) t ≡ true
      → added a ≡ task.info.demand
  added_busy a task e own busy = rw (e, added, own) (rw busy)

  demand_from_busy :
      (x : ScheduledInterval) (xs : List ScheduledInterval) (running : ℤ)
      → is_active x t ≡ true
      → demand_from running (x ∷ xs) t ≡ demand_from (running +ℤ x.demand) xs t
  unfolding demand_from
  demand_from_busy x xs running busy = rw busy

  added_idle :
      (a : Assignment) (task : PendingTask D)
      → lookup a.task_id m ≡ some task
      → (a.actor_id == id) ≡ true
      → is_active (booked_as a task) t ≡ false
      → added a ≡ pos 0
  added_idle a task e own idle = rw (e, added, own) (rw idle)

  demand_from_idle :
      (x : ScheduledInterval) (xs : List ScheduledInterval) (running : ℤ)
      → is_active x t ≡ false
      → demand_from running (x ∷ xs) t ≡ demand_from running xs t
  unfolding demand_from
  demand_from_idle x xs running idle = rw idle

  demand_from-booked_cons :
      (a : Assignment) (xs : List Assignment) (running : ℤ)
      → demand_from running (booked m id (a ∷ xs)) t
        ≡ demand_from (running +ℤ added a) (booked m id xs) t
  unfolding demand_from
  demand_from-booked_cons a xs running = elim (Option-cases (lookup a.task_id m)) [
    | inl e ↦ rw (e, booked, added, +ℤ-zero running)
    | inr (task, e) ↦ elim (Bool-cases (a.actor_id == id)) [
      | inl own ↦ elim (Bool-cases (is_active (booked_as a task) t)) [
        | inl busy ↦
            ap (λ l. demand_from running l t) (booked-own a xs task e own)
            ∙ demand_from_busy (booked_as a task) (booked m id xs) running busy
            ∙ ap (λ x. demand_from (running +ℤ x) (booked m id xs) t)
                (sym (added_busy a task e own busy))
        | inr idle ↦
            ap (λ l. demand_from running l t) (booked-own a xs task e own)
            ∙ demand_from_idle (booked_as a task) (booked m id xs) running idle
            ∙ ap (λ x. demand_from x (booked m id xs) t) (sym (+ℤ-zero running))
            ∙ ap (λ x. demand_from (running +ℤ x) (booked m id xs) t)
                (sym (added_idle a task e own idle))
      ]
      | inr other ↦ rw (e, booked, added, other, +ℤ-zero running)
    ]
  ]

  demand_from-booked-insert_by :
      (lt : Assignment → Assignment → Bool) (a : Assignment) (xs : List Assignment) (running : ℤ)
      → demand_from running (booked m id (insert_by lt a xs)) t
        ≡ demand_from running (booked m id (a ∷ xs)) t
  unfolding insert_by
  demand_from-booked-insert_by lt a [] running = refl
  demand_from-booked-insert_by lt a (x ∷ xs) running = elim (Bool-cases (lt x a)) [
    | inl e ↦ rw e (
        demand_from-booked_cons x (insert_by lt a xs) running
        ∙ demand_from-booked-insert_by lt a xs (running +ℤ added x)
        ∙ demand_from-booked_cons a xs (running +ℤ added x)
        ∙ ap (λ r. demand_from r (booked m id xs) t) (+ℤ_right_comm running (added x) (added a))
        ∙ sym (demand_from-booked_cons x xs (running +ℤ added a))
        ∙ sym (demand_from-booked_cons a (x ∷ xs) running))
    | inr e ↦ rw e refl
  ]

  demand_from-booked-sort_by :
      (lt : Assignment → Assignment → Bool) (xs : List Assignment) (running : ℤ)
      → demand_from running (booked m id (sort_by lt xs)) t ≡ demand_from running (booked m id xs) t
  unfolding sort_by
  demand_from-booked-sort_by lt [] running = refl
  demand_from-booked-sort_by lt (x ∷ xs) running =
      demand_from-booked-insert_by lt x (sort_by lt xs) running
      ∙ demand_from-booked_cons x (sort_by lt xs) running
      ∙ demand_from-booked-sort_by lt xs (running +ℤ added x)
      ∙ sym (demand_from-booked_cons x xs running)

demand_from-append_list :
    (xs : List ScheduledInterval) (running : ℤ) (ys : List ScheduledInterval) (t : Time)
    → demand_from running (xs ++ ys) t ≡ demand_from (demand_from running xs t) ys t
unfolding demand_from
demand_from-append_list [] running ys t = refl
demand_from-append_list (x ∷ xs) running ys t =
    demand_from-append_list xs (if is_active x t then running +ℤ x.demand else running) ys t

module _ {D : Type 0} ⦃d : Doubles D⦄ (workflow : Workflow D) (state : WorkflowState)
    (registry : ActorRegistry D) (now : Time) (strategy : Option SchedulingStrategy)
    (profile : Option ActorRankingProfile) where
  -- The reservations of an actor before anything is planned.
  abbrev pub taken : String → List ScheduledInterval
  taken id =
      reservations_of id
        (initialize_actor_reservations workflow registry (actor_ids registry) state now)

  abbrev pub load_index : List (String × PendingTask D)
  load_index = (planned_input workflow state registry now strategy profile).pending_by_id

  abbrev start_reservations : ReservationTable
  start_reservations = (plan_start workflow state registry now).reservations

  plan_end-WithinCapacity :
      IsRegistry registry
      → WithinCapacity
          (planned_input workflow state registry now strategy profile)
          start_reservations
          (plan_end workflow state registry now strategy profile)
  unfolding plan_input drop_task
  plan_end-WithinCapacity keyed =
      plan_end_inv workflow state registry now strategy profile
        (WithinCapacity (planned_input workflow state registry now strategy profile)
          start_reservations)
        (λ task st h. h)
        (λ task best st ok h.
          place-WithinCapacity (planned_input workflow state registry now strategy profile) keyed
            start_reservations task best st ok h)
        (λ id actor registered t.
          (max_ℤ-bounds actor.capacity
            (concurrent_demand_at (reservations_of id start_reservations) t)).1)

  plan_end-IsBooked :
      IsRegistry registry
      → IsBooked
          (planned_input workflow state registry now strategy profile)
          start_reservations
          (plan_end workflow state registry now strategy profile)
  unfolding plan_input drop_task plan_start
  plan_end-IsBooked keyed =
      plan_end_inv workflow state registry now strategy profile
        (IsBooked (planned_input workflow state registry now strategy profile) start_reservations)
        (λ task st h. h)
        (λ task best st ok h.
          place-IsBooked (planned_input workflow state registry now strategy profile) keyed
            start_reservations task best st ok h)
        (λ id. sym (append-nil (reservations_of id start_reservations)))

  -- At every time the demand on a registered actor, of its initial reservations and the
  -- assignments that Scheduler::plan returns, is within the actor's capacity, or no more than the
  -- reservations alone came to; where every actor is registered under its own id.
  pub plan-within_capacity :
      (id : String) (actor : Actor D) (t : Time)
      → IsRegistry registry
      → get id registry ≡ some actor
      → concurrent_demand_at
          (taken id
            ++ booked load_index id (plan workflow state registry now strategy profile).assignments)
          t
        ≤ℤ max_ℤ actor.capacity (concurrent_demand_at (taken id) t)
  unfolding plan plan_start concurrent_demand_at
  plan-within_capacity id actor t keyed registered =
      let within = plan_end-WithinCapacity keyed id actor registered t in
      let all = (plan_end workflow state registry now strategy profile).assignments in
      elim (Bool-cases (is_empty (collect_pending_tasks workflow state))) [
        | inl e ↦
            rw (e, plan, append-nil)
              (max_ℤ-bounds actor.capacity (concurrent_demand_at (taken id) t)).1
        | inr e1 ↦
            elim (Option-cases (validate_supported_tasks (collect_pending_tasks workflow state))) [
              | inr (task, e) ↦
                  rw (e1, plan, e, append-nil)
                    (max_ℤ-bounds actor.capacity (concurrent_demand_at (taken id) t)).1
              | inl e ↦
                  rw
                    (
                      e1,
                      plan,
                      e,
                      demand_from-append_list (taken id),
                      demand_from-booked-sort_by load_index id t assignment_before all,
                    )
                    (rw (← demand_from-append_list (taken id) (pos 0) (booked load_index id all) t)
                      (rw (plan_end-IsBooked keyed id) at within))
            ]
      ]
