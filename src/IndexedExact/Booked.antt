-- ===== src/IndexedExact/Booked.antt =====
-- The reservations that the search of indexed_exact_backend.cpp keeps are those of its
-- assignments, and stay within the capacities.
use mathlib.Core.List.{append-nil}
use task_orchestrator.Base.{
  ◌≡◌, refl, sym, ap, subst, ◌∙◌, ℤ, pos, ◌+ℤ◌, ◌≤ℤ◌, ◌<ℤ◌, max_ℤ, max_ℤ-bounds, String, ◌==◌,
  eq_iff, List, [], ◌∷◌, ◌++◌, map, lookup, assign, All, All-at, In, inl, inr, arith, Bool-cases,
  if◌then◌else◌, ≤ℤ-trans,
}
use task_orchestrator.Data.{Time, Doubles}
use task_orchestrator.Scheduler.Types.{ScheduledInterval}
use task_orchestrator.Scheduler.Capacity.{concurrent_demand_at}
use task_orchestrator.Scheduler.Capacity.Demand.{is_active, concurrent_demand_at-append, HasRoom}
use task_orchestrator.ConstraintIndex.{
  OptimizerActor, OptimizerTask, OptimizationModel, ConstraintIndex, ActorRef, list_at,
  eligible_actors_for_task,
}
use task_orchestrator.ConstraintIndex.Successors.{list_at-assign, list_at-push_at}
use task_orchestrator.Optimizer.Types.{OptimizedAssignment}
use task_orchestrator.IndexedExact.State.{SearchState, SearchAssignment, reservations_for_actor}
use task_orchestrator.IndexedExact.Candidates.{Candidate, candidates_for_task}
use task_orchestrator.IndexedExact.Solve.{
  assign_task, drop_task, interval_of, search_assignment, root, reserve_nothing,
}
use task_orchestrator.IndexedExact.Steps.{Step, drops, takes, Reach, here, next}
use task_orchestrator.IndexedExact.Chosen.{IsOf, IsCandidate-parts, candidates_for_task-IsOf}

-- The intervals of an actor's assignments, with the demands of their tasks.
abbrev pub booked : (String → ℤ) → String → List OptimizedAssignment → List ScheduledInterval
booked need i [] = []
booked need i (a ∷ more) =
    if a.actor_id == i
    then record { start = a.start_time; end = a.end_time; demand = need a.task_id }
      ∷ booked need i more
    else booked need i more

abbrev pub plan_of : SearchState → List OptimizedAssignment
plan_of s = map SearchAssignment.assignment s.assignments

booked-append :
    (need : String → ℤ) (i : String) (xs : List SearchAssignment) (a : SearchAssignment)
    → booked need i (map SearchAssignment.assignment (xs ++ a ∷ []))
      ≡ booked need i (map SearchAssignment.assignment xs) ++ booked need i (a.assignment ∷ [])
booked-append need i [] a = refl
booked-append need i (x ∷ xs) a = elim (Bool-cases (x.assignment.actor_id == i)) [
  | inl e ↦ rw e (
      ap
        (λ l.
          record {
            start = x.assignment.start_time;
            end = x.assignment.end_time;
            demand = need x.assignment.task_id;
          }
          ∷ l)
        (booked-append need i xs a))
  | inr e ↦ rw e (booked-append need i xs a)
]

reserve_nothing-empty :
    {D : Type 0} (actors : List (OptimizerActor D)) (i : String)
    (m : List (String × List ScheduledInterval))
    → list_at i m ≡ []
    → list_at i (reserve_nothing actors m) ≡ []
unfolding reserve_nothing
reserve_nothing-empty [] i m h = h
reserve_nothing-empty (a ∷ actors) i m h =
    reserve_nothing-empty actors i (assign a.id [] m)
      (list_at-assign a.id i [] m ∙ ground (arith, h))

module _ {D : Type 0} (doubles : Doubles D) (model : OptimizationModel D)
    (index : ConstraintIndex D) (capacity_of demand_of : String → ℤ)
    (sized : All (λ (t : OptimizerTask D). t.demand ≡ demand_of t.id) model.tasks)
    (limited : All
      (λ (t : OptimizerTask D).
        All
          (λ (ref : ActorRef D). ref.1.capacity ≡ capacity_of ref.1.id)
          (eligible_actors_for_task index t))
      model.tasks) where
  record IsBooked (s : SearchState) : Type 0 where
    kept : (i : String) → reservations_for_actor s i ≡ booked demand_of i (plan_of s)
    within :
        (i : String) (t : Time)
        → concurrent_demand_at (reservations_for_actor s i) t ≤ℤ max_ℤ (pos 0) (capacity_of i)

  root-IsBooked : IsBooked (root model)
  unfolding root reservations_for_actor
  root-IsBooked =
      let empty = λ (i : String). reserve_nothing-empty model.actors i [] (unfold lookup in refl) in
      record {
        kept = empty;
        within = λ i t.
            rw (empty i) (unfold concurrent_demand_at in (max_ℤ-bounds (pos 0) (capacity_of i)).0);
      }

  module _ (s : SearchState) (t : OptimizerTask D) (c : Candidate D) (booking : IsBooked s) where
    reserved :
        (i : String)
        → reservations_for_actor (assign_task t s c) i ≡ (
            if c.actor_id == i
            then reservations_for_actor s c.actor_id ++ interval_of t c ∷ []
            else reservations_for_actor s i)
    unfolding reservations_for_actor assign_task
    reserved i = list_at-push_at c.actor_id i (interval_of t c) s.reservations

    kept_on :
        In t model.tasks
        → (i : String)
        → reservations_for_actor (assign_task t s c) i
          ≡ booked demand_of i (plan_of (assign_task t s c))
    unfolding assign_task
    kept_on m i =
        let size =
          All-at (λ (x : OptimizerTask D). x.demand ≡ demand_of x.id) t model.tasks sized m in
        reserved i ∙ elim (Bool-cases (c.actor_id == i)) [
          | inl e ↦
              let same = (eq_iff c.actor_id i).0 e in
              rw
                (
                  booked-append demand_of i s.assignments (search_assignment t c),
                  e,
                  same,
                  size,
                  booking.kept i,
                )
                refl
          | inr e ↦
              rw
                (booked-append demand_of i s.assignments (search_assignment t c), e, booking.kept i)
                (sym (append-nil (booked demand_of i (plan_of s))))
        ]

    -- One more interval, with room for it.
    crowded :
        (rs : List ScheduledInterval) (capacity : ℤ) (i : String) (x : Time)
        → capacity ≡ capacity_of i
        → c.end_time ≡ c.start_time +ℤ t.duration
        → HasRoom rs capacity c.start_time (c.start_time +ℤ t.duration) t.demand
        → concurrent_demand_at rs x ≤ℤ max_ℤ (pos 0) (capacity_of i)
        → concurrent_demand_at (rs ++ interval_of t c ∷ []) x ≤ℤ max_ℤ (pos 0) (capacity_of i)
    crowded rs capacity i x limit ends room below =
        rw (concurrent_demand_at-append rs (interval_of t c) x)
          (elim (Bool-cases (is_active (interval_of t c) x)) [
            | inl e ↦
                let until : x <ℤ c.end_time = ground (arith, e) in
                let until' : x <ℤ c.start_time +ℤ t.duration = subst (λ k. x <ℤ k) ends until in
                let fits = room x (ground (arith, e)) until' in
                rw e (
                  ≤ℤ-trans _ capacity _ fits (
                    subst (λ k. k ≤ℤ max_ℤ (pos 0) (capacity_of i)) (sym limit)
                      (max_ℤ-bounds (pos 0) (capacity_of i)).1))
            | inr e ↦ rw e below
          ])

    within_on :
        (refs : List (ActorRef D))
        → All (λ ref. ref.1.capacity ≡ capacity_of ref.1.id) refs
        → IsOf doubles t s refs c
        → (i : String) (x : Time)
        → concurrent_demand_at (reservations_for_actor (assign_task t s c) i) x
          ≤ℤ max_ℤ (pos 0) (capacity_of i)
    within_on [] a o i x = absurd o
    within_on (ref ∷ refs) a (inr o) i x = within_on refs a.1 o i x
    within_on (ref ∷ refs) a (inl o) i x =
        let rs = reservations_for_actor s c.actor_id in
        let parts = IsCandidate-parts doubles o in
        elim (Bool-cases (c.actor_id == i)) [
          | inl e ↦
              let same = (eq_iff c.actor_id i).0 e in
              let limit : ref.1.capacity ≡ capacity_of i =
                a.0 ∙ ap capacity_of (sym parts.0 ∙ same) in
              let room =
                subst
                  (λ k.
                    HasRoom (reservations_for_actor s k) ref.1.capacity c.start_time
                      (c.start_time +ℤ t.duration) t.demand)
                  (sym parts.0) o.suits.room in
              rw (reserved i, e)
                (crowded rs ref.1.capacity i x limit parts.1 room (
                  subst
                    (λ k.
                      concurrent_demand_at (reservations_for_actor s k) x
                      ≤ℤ max_ℤ (pos 0) (capacity_of i))
                    (sym same) (booking.within i x)))
          | inr e ↦ rw (reserved i, e) (booking.within i x)
        ]

  Step-IsBooked : {s s' : SearchState} → Step doubles model index s s' → IsBooked s → IsBooked s'
  unfolding drop_task reservations_for_actor
  Step-IsBooked (drops t m h) b = record { kept = b.kept; within = b.within }
  Step-IsBooked {s} (takes t c m r e) b = record {
    kept = kept_on s t c b m;
    within =
        within_on s t c b (eligible_actors_for_task index t)
          (All-at
            (λ (x : OptimizerTask D).
              All (λ (ref : ActorRef D). ref.1.capacity ≡ capacity_of ref.1.id)
                (eligible_actors_for_task index x))
            t model.tasks limited m)
          (All-at (IsOf doubles t s (eligible_actors_for_task index t)) c
            (candidates_for_task doubles t s index) (candidates_for_task-IsOf doubles t s index) e);
  }

  Reach-IsBooked : {s : SearchState} → Reach doubles model index (root model) s → IsBooked s
  Reach-IsBooked here = root-IsBooked
  Reach-IsBooked (next r st) = Step-IsBooked st (Reach-IsBooked r)

  -- At every time the demand of an actor's assignments is within its capacity.
  pub Reach-within :
      {s : SearchState}
      → Reach doubles model index (root model) s
      → (i : String) (t : Time)
      → concurrent_demand_at (booked demand_of i (plan_of s)) t ≤ℤ max_ℤ (pos 0) (capacity_of i)
  Reach-within r i t =
      let b = Reach-IsBooked r in
      subst (λ rs. concurrent_demand_at rs t ≤ℤ max_ℤ (pos 0) (capacity_of i)) (b.kept i)
        (b.within i t)
