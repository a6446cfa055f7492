-- ===== src/Scheduler/Ranking.antt =====
-- The candidates of a task, one for each actor, and which is taken.
use task_orchestrator.Base.{
  ℕ, ◌+◌, ℤ, pos, negsuc, ◌+ℤ◌, ltb_ℤ, eqb_ℤ, max_ℤ, String, Bool, true, false, not, ◌==◌, List, [],
  ◌∷◌, Option, none, some, contains, lookup, lt_id, if◌then◌else◌,
}
use task_orchestrator.Data.{Time, Doubles}
use task_orchestrator.Actor.{Actor}
use task_orchestrator.Scheduler.Types.{
  ActorRankingCriterion, earliest_feasible_start, earliest_feasible_completion,
  distance_to_work_criterion, execution_cost_criterion, uptime_utilisation, least_loaded,
  preferred_actor_criterion, ActorRankingProfile, PendingTask, WorkflowState, ScheduledInterval,
  RankedActorCandidate, CandidateSelection, ActorRegistry, get, ReservationTable, CompletionTable,
  unknown_distance_padding,
}
use task_orchestrator.Scheduler.Capacity.{concurrent_demand_at, earliest_start}
use task_orchestrator.Scheduler.Eligibility.{
  effective_preferred_actors, effective_release_time, effective_latest_start_time, actor_is_allowed,
  dependency_ready_time,
}

-- The largest distance of a map from the first entry on: `std::ranges::max_element`.
unfoldable pub farthest : Time → List (String × Time) → Time
farthest best [] = best
farthest best ((actor, distance) ∷ m) = farthest (if ltb_ℤ best distance then distance else best) m

unfoldable pub fallback_distance : List (String × Time) → Time
unfolding farthest
fallback_distance [] = pos 0
fallback_distance ((actor, distance) ∷ m) = farthest distance m +ℤ unknown_distance_padding

-- A distance that the map gives, or else the fallback.
abbrev pub distance_in : String → List (String × Time) → Time
distance_in actor_id distances = elim (lookup actor_id distances) [
  | some distance ↦ distance
  | none ↦ fallback_distance distances
]

-- `lhs < rhs ? -1 : 1` where the two differ, with the index of the criterion.
abbrev pub decided : Bool → ℕ → Option (ℤ × ℕ)
decided true idx = some (negsuc 0, idx)
decided false idx = some (pos 1, idx)

-- `latest_start && *start_time > *latest_start`, and the same of the deadline.
abbrev pub is_after : Time → Option Time → Bool
is_after t none = false
is_after t (some limit) = ltb_ℤ limit t

abbrev pub reservations_of : String → ReservationTable → List ScheduledInterval
reservations_of actor_id table = elim (lookup actor_id table) [ none ↦ [] | some rs ↦ rs ]

module _ {D : Type 0} where
  unfoldable pub effective_distance_to_work : PendingTask D → String → WorkflowState → Time
  unfolding fallback_distance
  effective_distance_to_work task actor_id state =
      elim (lookup task.info.id state.task_actor_distance) [
        | some distances ↦ distance_in actor_id distances
        | none ↦ elim task.process [
          | none ↦ pos 0
          | some process ↦ distance_in actor_id process.actor_distances
        ]
      ]

  unfoldable pub preferred_actor_for_task : PendingTask D → String → WorkflowState → Bool
  unfolding effective_preferred_actors
  preferred_actor_for_task task actor_id state = elim (effective_preferred_actors task state) [
    | none ↦ false
    | some actors ↦ contains actor_id actors
  ]

  module _ ⦃d : Doubles D⦄ where
    -- One case of the `switch`: `none` where the two candidates agree.
    unfoldable pub compare_by :
        ActorRankingCriterion → RankedActorCandidate D → RankedActorCandidate D → ℕ → Option (ℤ × ℕ)
    compare_by earliest_feasible_start lhs rhs idx =
        if not (eqb_ℤ lhs.start_time rhs.start_time)
        then decided (ltb_ℤ lhs.start_time rhs.start_time) idx
        else none
    compare_by earliest_feasible_completion lhs rhs idx =
        if not (eqb_ℤ lhs.finish_time rhs.finish_time)
        then decided (ltb_ℤ lhs.finish_time rhs.finish_time) idx
        else none
    compare_by distance_to_work_criterion lhs rhs idx =
        if not (eqb_ℤ lhs.distance_to_work rhs.distance_to_work)
        then decided (ltb_ℤ lhs.distance_to_work rhs.distance_to_work) idx
        else none
    compare_by execution_cost_criterion lhs rhs idx =
        if not (d.eq lhs.execution_cost rhs.execution_cost)
        then decided (d.lt lhs.execution_cost rhs.execution_cost) idx
        else none
    compare_by uptime_utilisation lhs rhs idx =
        if not (d.eq lhs.uptime_utilization rhs.uptime_utilization)
        then decided (d.lt rhs.uptime_utilization lhs.uptime_utilization) idx
        else none
    compare_by least_loaded lhs rhs idx =
        if not (eqb_ℤ lhs.actor_load rhs.actor_load)
        then decided (ltb_ℤ lhs.actor_load rhs.actor_load) idx
        else none
    compare_by preferred_actor_criterion lhs rhs idx =
        if lhs.preferred_actor
        then if rhs.preferred_actor then none else decided true idx
        else if rhs.preferred_actor
        then decided false idx
        else none

    -- The loop over the criteria from index `idx` on, and the tie-break by actor id behind it.
    unfoldable pub compare_from :
        List ActorRankingCriterion → ℕ → RankedActorCandidate D → RankedActorCandidate D → ℤ × ℕ
    unfolding compare_by
    compare_from [] idx lhs rhs =
        if not (lhs.actor_id == rhs.actor_id)
        then if lt_id lhs.actor_id rhs.actor_id then (negsuc 0, idx) else (pos 1, idx)
        else (pos 0, idx)
    compare_from (criterion ∷ criteria) idx lhs rhs =
        let rest = compare_from criteria (idx + 1) lhs rhs in
        elim (compare_by criterion lhs rhs idx) [ some result ↦ result | none ↦ rest ]

    unfoldable pub compare_candidates :
        RankedActorCandidate D → RankedActorCandidate D → ActorRankingProfile → ℤ × ℕ
    unfolding compare_from
    compare_candidates lhs rhs profile = compare_from profile.criteria 0 lhs rhs

    unfoldable pub build_candidate :
        PendingTask D
        → Actor D
        → Time
        → WorkflowState
        → List ScheduledInterval
        → RankedActorCandidate D
    unfolding concurrent_demand_at effective_distance_to_work preferred_actor_for_task
    build_candidate task actor start_time state reservations =
        let actor_load = concurrent_demand_at reservations start_time in
        let effective_capacity = max_ℤ actor.capacity (pos 1) in
        record {
          actor_id = actor.id;
          start_time = start_time;
          finish_time = start_time +ℤ task.info.duration;
          distance_to_work = effective_distance_to_work task actor.id state;
          execution_cost = d.mul actor.execution_cost_per_unit (d.of_int task.info.duration);
          uptime_utilization = d.div (d.of_int actor_load) (d.of_int effective_capacity);
          actor_load = actor_load;
          preferred_actor = preferred_actor_for_task task actor.id state;
        }

    -- The better of a new candidate and the best so far.
    unfoldable pub better_of :
        ActorRankingProfile
        → RankedActorCandidate D
        → Option (CandidateSelection D)
        → CandidateSelection D
    unfolding compare_candidates
    better_of profile candidate none = record { candidate = candidate; ranking_reason_index = 0 }
    better_of profile candidate (some best) =
        let (comparison_result, ranking_reason_index) =
          compare_candidates candidate best.candidate profile in
        if ltb_ℤ comparison_result (pos 0)
        then record { candidate = candidate; ranking_reason_index = ranking_reason_index }
        else best

    -- The body of the loop of `select_best_candidate`: the candidate of one actor, if it has one.
    unfoldable pub candidate_of :
        PendingTask D
        → List String
        → ActorRegistry D
        → WorkflowState
        → ReservationTable
        → Time
        → String
        → Option (RankedActorCandidate D)
    unfolding get actor_is_allowed earliest_start effective_latest_start_time build_candidate
    candidate_of task unavailable registry state table earliest_release actor_id =
        if contains actor_id unavailable then none else elim (get actor_id registry) [
          | none ↦ none
          | some actor ↦
              let reservations = reservations_of actor_id table in
              if not (actor_is_allowed task actor state)
              then none
              else elim (earliest_start actor reservations earliest_release task.info.duration
                  task.info.demand) [
                    | none ↦ none
                    | some start ↦
                        if is_after start (effective_latest_start_time task)
                        then none
                        else if is_after (start +ℤ task.info.duration) task.info.deadline
                        then none
                        else some (build_candidate task actor start state reservations)
                  ]
        ]

    unfoldable pub select_from :
        ActorRankingProfile
        → (String → Option (RankedActorCandidate D))
        → Option (CandidateSelection D)
        → List String
        → Option (CandidateSelection D)
    unfolding better_of
    select_from profile candidate best [] = best
    select_from profile candidate best (actor_id ∷ actor_ids) =
        select_from profile candidate
          (elim (candidate actor_id) [ none ↦ best | some c ↦ some (better_of profile c best) ])
          actor_ids

    unfoldable pub select_best_candidate :
        PendingTask D
        → List String
        → List String
        → ActorRegistry D
        → WorkflowState
        → ReservationTable
        → CompletionTable
        → Time
        → ActorRankingProfile
        → Option (CandidateSelection D)
    unfolding dependency_ready_time effective_release_time candidate_of select_from
    select_best_candidate task sorted_actor_ids unavailable registry state table completion_times
          now profile =
        elim (dependency_ready_time task completion_times) [
          | none ↦ none
          | some dependency_ready ↦
              let earliest_release =
                max_ℤ (max_ℤ now (effective_release_time task state)) dependency_ready in
              select_from profile
                (candidate_of task unavailable registry state table earliest_release) none
                sorted_actor_ids
        ]
