-- ===== src/Scheduler/Selection.antt =====
-- What `select_best_candidate` of scheduler.cpp returns: a candidate that meets every test.
use task_orchestrator.Base.{
  pos, ◌+ℤ◌, ltb_ℤ, max_ℤ, ◌≡◌, refl, subst, inl, inr, String, true, false, List, [], ◌∷◌, Option,
  none, some, contains, arith, Bool-cases, Option-cases, if◌then◌else◌,
}
use mathlib.Core.Option.{some-injective}
use task_orchestrator.Data.{Time, Doubles}
use task_orchestrator.Actor.{Actor}
use task_orchestrator.Scheduler.Types.{
  ActorRankingProfile, WorkflowState, ActorRegistry, get, PendingTask, RankedActorCandidate,
  CandidateSelection, ReservationTable, CompletionTable,
}
use task_orchestrator.Scheduler.Capacity.{earliest_start}
use task_orchestrator.Scheduler.Eligibility.{
  effective_release_time, effective_latest_start_time, actor_is_allowed, dependency_ready_time,
}
use task_orchestrator.Scheduler.Ranking.{
  compare_candidates, build_candidate, better_of, is_after, reservations_of, candidate_of,
  select_from, select_best_candidate,
}

-- The candidate is one actor's, and passes the tests of the loop.
pub record IsCandidate {D : Type 0} (task : PendingTask D) (unavailable : List String)
    (registry : ActorRegistry D) (state : WorkflowState) (table : ReservationTable) (release : Time)
    (c : RankedActorCandidate D) : Type 0 where
  pub key : String
  pub actor : Actor D
  pub registered : get key registry ≡ some actor
  pub named : c.actor_id ≡ actor.id
  pub available : contains key unavailable ≡ false
  pub allowed : actor_is_allowed task actor state ≡ true
  pub start_found :
      earliest_start actor (reservations_of key table) release task.info.duration task.info.demand
      ≡ some c.start_time
  pub in_time : is_after c.start_time (effective_latest_start_time task) ≡ false
  pub finish_time : c.finish_time ≡ c.start_time +ℤ task.info.duration
  pub meets_deadline : is_after c.finish_time task.info.deadline ≡ false

module _ {D : Type 0} ⦃d : Doubles D⦄ (task : PendingTask D) (unavailable : List String)
    (registry : ActorRegistry D) (state : WorkflowState) (table : ReservationTable) where
  abbrev Good : Time → RankedActorCandidate D → Type 0
  Good = IsCandidate task unavailable registry state table

  in_time_of :
      (release : Time) (key : String) (actor : Actor D) (start : Time) {c : RankedActorCandidate D}
      → contains key unavailable ≡ false
      → get key registry ≡ some actor
      → actor_is_allowed task actor state ≡ true
      → earliest_start actor (reservations_of key table) release task.info.duration task.info.demand
        ≡ some start
      → (if is_after start (effective_latest_start_time task)
          then none
          else if is_after (start +ℤ task.info.duration) task.info.deadline
          then none
          else some (build_candidate task actor start state (reservations_of key table)))
        ≡ some c
      → Good release c
  unfolding build_candidate
  in_time_of release key actor start {c} e1 e2 e3 e4 h =
      elim (Bool-cases (is_after start (effective_latest_start_time task))) [
        | inl e ↦ absurd (ground arith)
        | inr e5 ↦ elim (Bool-cases (is_after (start +ℤ task.info.duration) task.info.deadline)) [
          | inl e ↦ absurd (ground arith)
          | inr e6 ↦ subst (Good release) (some-injective _ c (rw (e5, e6) at h)) (record {
            key = key;
            actor = actor;
            registered = e2;
            named = refl;
            available = e1;
            allowed = e3;
            start_found = e4;
            in_time = e5;
            finish_time = refl;
            meets_deadline = e6;
          })
        ]
      ]

  candidate_of-IsCandidate :
      (release : Time) (key : String) {c : RankedActorCandidate D}
      → candidate_of task unavailable registry state table release key ≡ some c
      → Good release c
  unfolding candidate_of
  candidate_of-IsCandidate release key {c} h = elim (Bool-cases (contains key unavailable)) [
    | inl e ↦ absurd (ground arith)
    | inr e1 ↦ elim (Option-cases (get key registry)) [
      | inl e ↦ absurd (ground arith)
      | inr (actor, e2) ↦ elim (Bool-cases (actor_is_allowed task actor state)) [
        | inl e3 ↦
            elim (Option-cases (
              earliest_start actor (reservations_of key table) release task.info.duration
                task.info.demand)) [
                  | inl e ↦ absurd (ground arith)
                  | inr (start, e4) ↦
                      in_time_of release key actor start e1 e2 e3 e4
                        (rw (e1, candidate_of, e2, e3, e4) at h)
                ]
        | inr e ↦ absurd (ground arith)
      ]
    ]
  ]

  -- A selection that is there holds a good candidate.
  abbrev GoodBest : Time → Option (CandidateSelection D) → Type 0
  GoodBest release none = Unit
  GoodBest release (some b) = Good release b.candidate

  better_of-Good :
      (profile : ActorRankingProfile) (release : Time) (c : RankedActorCandidate D)
      (best : Option (CandidateSelection D))
      → Good release c
      → GoodBest release best
      → Good release (better_of profile c best).candidate
  unfolding better_of
  better_of-Good profile release c none g b = g
  better_of-Good profile release c (some best) g b =
      elim (Bool-cases (ltb_ℤ (compare_candidates c best.candidate profile).0 (pos 0))) [
        | inl e ↦ rw e g
        | inr e ↦ rw e b
      ]

  select_from-Good :
      (profile : ActorRankingProfile) (release : Time) (best : Option (CandidateSelection D))
      (keys : List String)
      → GoodBest release best
      → GoodBest release (
          select_from profile
            (candidate_of task unavailable registry state table release)
            best
            keys)
  unfolding select_from
  select_from-Good profile release best [] g = g
  select_from-Good profile release best (key ∷ keys) g =
      elim (Option-cases (candidate_of task unavailable registry state table release key)) [
        | inl e ↦ rw e (select_from-Good profile release best keys g)
        | inr (c, e) ↦ rw e (
            select_from-Good profile release (some (better_of profile c best)) keys
              (better_of-Good profile release c best (candidate_of-IsCandidate release key e) g))
      ]

  -- The selected candidate was possible when its task was considered, from the latest of the
  -- present, the task's release and the end of its dependencies on.
  pub select_best_candidate-IsCandidate :
      (keys : List String) (completions : CompletionTable) (now : Time)
      (profile : ActorRankingProfile) {s : CandidateSelection D}
      → select_best_candidate task keys unavailable registry state table completions now profile
        ≡ some s
      → (ready : Time) × (dependency_ready_time task completions ≡ some ready)
        × Good (max_ℤ (max_ℤ now (effective_release_time task state)) ready) s.candidate
  unfolding select_best_candidate
  select_best_candidate-IsCandidate keys completions now profile {s} h =
      elim (Option-cases (dependency_ready_time task completions)) [
        | inl e ↦ absurd (ground arith)
        | inr (ready, e) ↦
            let release = max_ℤ (max_ℤ now (effective_release_time task state)) ready in
            (
              ready,
              e,
              subst (GoodBest release) (rw (e, select_best_candidate) at h)
                  (select_from-Good profile release none keys tt),
            )
      ]
