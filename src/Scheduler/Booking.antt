-- ===== src/Scheduler/Booking.antt =====
-- `Scheduler::plan` never takes an actor beyond its capacity.
use mathlib.Core.List.{append-nil, append_assoc}
use mathlib.Core.Path.{subst₂}
use mathlib.Core.Option.{some-injective}
use task_orchestrator.Base.{
  ◌+ℤ◌, ◌≤ℤ◌, max_ℤ, ◌≡◌, refl, sym, max_ℤ-bounds, ap, ◌∙◌, inl, inr, String, List, [], ◌∷◌, ◌++◌,
  none, some, lookup, lookup-assign, eq_iff, ◌==◌, arith, Bool-cases, Option-cases, if◌then◌else◌,
}
use task_orchestrator.Data.{Time, Doubles}
use task_orchestrator.Actor.{Actor}
use task_orchestrator.Scheduler.Types.{
  Assignment, get, PendingTask, ScheduledInterval, CandidateSelection, ReservationTable,
}
use task_orchestrator.Scheduler.Capacity.{concurrent_demand_at}
use task_orchestrator.Scheduler.Capacity.Demand.{is_active, concurrent_demand_at-append}
use task_orchestrator.Scheduler.Capacity.Starts.{earliest_start_room}
use task_orchestrator.Scheduler.Ranking.{reservations_of}
use task_orchestrator.Scheduler.Tables.{reserve}
use task_orchestrator.Scheduler.Plan.{PlanState, place, PlanInput}
use task_orchestrator.Scheduler.Selection.{select_best_candidate-IsCandidate}
use task_orchestrator.Scheduler.Invariants.{IsPlaceable}
use task_orchestrator.Scheduler.Placement.{IsRegistry}

reservations_of-reserve :
    (key id : String) (r : ScheduledInterval) (table : ReservationTable)
    → reservations_of id (reserve key r table)
      ≡ (if key == id then reservations_of id table ++ r ∷ [] else reservations_of id table)
unfolding reserve
reservations_of-reserve key id r table =
    rw (lookup-assign key id (reservations_of key table ++ r ∷ []) table, reservations_of)
      (elim (Bool-cases (key == id)) [
        | inl own ↦ rw own (ap (λ k. reservations_of k table ++ r ∷ []) ((eq_iff key id).0 own))
        | inr other ↦ rw other
      ])

-- The interval of an assignment, which is as long as its task takes.
abbrev pub booked_as : {D : Type 0} → Assignment → PendingTask D → ScheduledInterval
booked_as a task = record {
  start = a.start_time;
  end = a.start_time +ℤ task.info.duration;
  demand = task.info.demand;
}

module _ {D : Type 0} (m : List (String × PendingTask D)) (id : String) where
  -- The time that a list of assignments books of the actor `id`.
  abbrev pub booked : List Assignment → List ScheduledInterval
  booked [] = []
  booked (a ∷ xs) = elim (lookup a.task_id m) [
    | none ↦ booked xs
    | some task ↦ if a.actor_id == id then booked_as a task ∷ booked xs else booked xs
  ]

  booked-append : (xs ys : List Assignment) → booked (xs ++ ys) ≡ booked xs ++ booked ys
  booked-append [] ys = refl
  booked-append (a ∷ xs) ys = elim (Option-cases (lookup a.task_id m)) [
    | inl e ↦ rw (e, booked) (booked-append xs ys)
    | inr (task, e) ↦ elim (Bool-cases (a.actor_id == id)) [
      | inl own ↦ rw (e, booked, own) (ap (λ l. booked_as a task ∷ l) (booked-append xs ys))
      | inr other ↦ rw (e, booked, other) (booked-append xs ys)
    ]
  ]

module _ {D : Type 0} (input : PlanInput D) (start : ReservationTable) where
  -- No actor is taken, at any time, beyond its capacity or what was taken of it at the start.
  abbrev pub WithinCapacity : PlanState → Type 0
  WithinCapacity st =
      (id : String) (actor : Actor D)
      → get id input.registry ≡ some actor
      → (t : Time)
      → concurrent_demand_at (reservations_of id st.reservations) t
        ≤ℤ max_ℤ actor.capacity (concurrent_demand_at (reservations_of id start) t)

  -- The reservations of an actor are those of the start and those that the assignments book.
  abbrev pub IsBooked : PlanState → Type 0
  IsBooked st =
      (id : String)
      → reservations_of id st.reservations
        ≡ reservations_of id start ++ booked input.pending_by_id id st.assignments

module _ {D : Type 0} ⦃d : Doubles D⦄ (input : PlanInput D) (keyed : IsRegistry input.registry)
    (start : ReservationTable) where
  pub place-WithinCapacity :
      (task : PendingTask D) (best : CandidateSelection D) (st : PlanState)
      → IsPlaceable input st task best
      → WithinCapacity input start st
      → WithinCapacity input start (place task best st)
  unfolding place
  place-WithinCapacity task best st ok h id actor registered t =
      let (ready, _, c) =
        select_best_candidate-IsCandidate task input.state.unavailable_actors input.registry
          input.state st.reservations input.sorted_actor_ids st.completion_times input.now
          input.profile ok.selected in
      let key : c.key ≡ best.candidate.actor_id =
        sym (keyed c.key c.actor c.registered) ∙ sym c.named in
      let room =
        earliest_start_room c.actor _ _ task.info.duration task.info.demand c.start_found in
      let r : ScheduledInterval = record {
        start = best.candidate.start_time;
        end = best.candidate.finish_time;
        demand = task.info.demand;
      } in
      rw (reservations_of-reserve best.candidate.actor_id id r st.reservations)
        (elim (Bool-cases (best.candidate.actor_id == id)) [
          | inr other ↦ rw other (h id actor registered t)
          | inl own ↦
              let at_id : c.key ≡ id = key ∙ (eq_iff best.candidate.actor_id id).0 own in
              let same : c.actor ≡ actor =
                some-injective c.actor actor
                  (sym c.registered ∙ ap (λ k. get k input.registry) at_id ∙ registered) in
              rw own (
                rw (concurrent_demand_at-append (reservations_of id st.reservations) r t)
                  (elim (Bool-cases (is_active r t)) [
                    | inr idle ↦ rw idle (h id actor registered t)
                    | inl busy ↦
                        let free = room.2 t (ground arith) (rw (← c.finish_time) (ground arith)) in
                        let free' : concurrent_demand_at (reservations_of id st.reservations) t
                              +ℤ task.info.demand
                            ≤ℤ actor.capacity =
                          subst₂
                            (λ k (x : Actor D).
                              concurrent_demand_at (reservations_of k st.reservations) t
                                +ℤ task.info.demand
                              ≤ℤ x.capacity)
                            at_id same free in
                        rw busy (
                          omega (
                            arith,
                            free',
                            max_ℤ-bounds actor.capacity
                                (concurrent_demand_at (reservations_of id start) t),
                          ))
                  ]))
        ])

  pub place-IsBooked :
      (task : PendingTask D) (best : CandidateSelection D) (st : PlanState)
      → IsPlaceable input st task best
      → IsBooked input start st
      → IsBooked input start (place task best st)
  unfolding place
  place-IsBooked task best st ok h id =
      let (ready, _, c) =
        select_best_candidate-IsCandidate task input.state.unavailable_actors input.registry
          input.state st.reservations input.sorted_actor_ids st.completion_times input.now
          input.profile ok.selected in
      let r : ScheduledInterval = record {
        start = best.candidate.start_time;
        end = best.candidate.finish_time;
        demand = task.info.demand;
      } in
      rw
        (
          reservations_of-reserve best.candidate.actor_id id r st.reservations,
          booked-append input.pending_by_id id st.assignments,
          ok.indexed,
          booked,
        )
        (elim (Bool-cases (best.candidate.actor_id == id)) [
          | inr other ↦ rw (other, append-nil) (h id)
          | inl own ↦
              rw (own, c.finish_time, h id)
                (append_assoc (reservations_of id start)
                  (booked input.pending_by_id id st.assignments) _)
        ])
