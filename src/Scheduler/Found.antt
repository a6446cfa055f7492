-- ===== src/Scheduler/Found.antt =====
-- `select_best_candidate` of scheduler.cpp finds a candidate where some actor can do the task.
use task_orchestrator.Base.{
  pos, ◌+ℤ◌, ◌≤ℤ◌, ◌<ℤ◌, max_ℤ, +ℤ_parts, ◌≡◌, refl, sym, subst, inl, inr, String, true, false,
  List, [], ◌∷◌, Option, none, some, is_some, contains, eq_iff, ◌==◌, arith, Bool-cases,
  Option-cases,
}
use task_orchestrator.Data.{Time, Doubles}
use task_orchestrator.Actor.{Actor}
use task_orchestrator.Scheduler.Types.{
  ActorRankingProfile, WorkflowState, ActorRegistry, get, PendingTask, RankedActorCandidate,
  CandidateSelection, ReservationTable, CompletionTable,
}
use task_orchestrator.Scheduler.Capacity.{earliest_start}
use task_orchestrator.Scheduler.Capacity.Starts.{
  StartsAt, earliest_start-StartsAt, earliest_start-none,
}
use task_orchestrator.Scheduler.Eligibility.{
  effective_release_time, effective_latest_start_time, actor_is_allowed, dependency_ready_time,
}
use task_orchestrator.Scheduler.Ranking.{
  better_of, is_after, reservations_of, candidate_of, select_from, select_best_candidate,
}

-- The time is not after the limit, where there is one.
abbrev pub IsBy : Time → Option Time → Type 0
IsBy t o = (limit : Time) → o ≡ some limit → t ≤ℤ limit

is_after_earlier : (s t : Time) (o : Option Time) → s ≤ℤ t → IsBy t o → is_after s o ≡ false
is_after_earlier s t none h by = refl
is_after_earlier s t (some limit) h by = ground (arith, by limit refl)

module _ {D : Type 0} ⦃d : Doubles D⦄ (profile : ActorRankingProfile)
    (candidate : String → Option (RankedActorCandidate D)) where
  select_from_kept :
      (best : CandidateSelection D) (ids : List String)
      → is_some (select_from profile candidate (some best) ids) ≡ true
  unfolding select_from
  select_from_kept best [] = refl
  select_from_kept best (id ∷ ids) = elim (Option-cases (candidate id)) [
    | inl e ↦ rw (e, select_from) (select_from_kept best ids)
    | inr (c, e) ↦ rw (e, select_from) (select_from_kept (better_of profile c (some best)) ids)
  ]

  select_from_found :
      (key : String) (best : Option (CandidateSelection D)) (ids : List String)
      {c : RankedActorCandidate D}
      → contains key ids ≡ true
      → candidate key ≡ some c
      → is_some (select_from profile candidate best ids) ≡ true
  unfolding select_from contains
  select_from_found key best [] m f = cc
  select_from_found key best (id ∷ ids) {c} m f = elim (Bool-cases (id == key)) [
    | inr e ↦
        select_from_found key
          (elim (candidate id) as (λ x. Option (CandidateSelection D)) [
            | none ↦ best
            | some c' ↦ some (better_of profile c' best)
          ])
          ids (ground (arith, m, e)) f
    | inl e ↦
        let here : candidate id ≡ some c =
          subst (λ i. candidate i ≡ some c) (sym ((eq_iff id key).0 e)) f in
        rw (here, select_from) (select_from_kept (better_of profile c best) ids)
  ]

module _ {D : Type 0} ⦃d : Doubles D⦄ (task : PendingTask D) (unavailable : List String)
    (registry : ActorRegistry D) (state : WorkflowState) (table : ReservationTable) where
  candidate_of_found :
      (release : Time) (key : String) (actor : Actor D) (t : Time)
      → contains key unavailable ≡ false
      → get key registry ≡ some actor
      → actor_is_allowed task actor state ≡ true
      → pos 0 <ℤ task.info.duration
      → StartsAt actor (reservations_of key table) release task.info.duration task.info.demand t
      → IsBy t task.info.latest_start_time
      → IsBy (t +ℤ task.info.duration) task.info.deadline
      → is_some (candidate_of task unavailable registry state table release key) ≡ true
  unfolding candidate_of effective_latest_start_time
  candidate_of_found release key actor t free registered allowed long starts latest deadline =
      elim (Option-cases (
        earliest_start actor (reservations_of key table) release task.info.duration
          task.info.demand)) [
            | inl e ↦ absurd (
                earliest_start-none actor (reservations_of key table) release task.info.duration
                  task.info.demand long e t starts)
            | inr (s, e) ↦
                let (possible, least) =
                  earliest_start-StartsAt actor (reservations_of key table) release
                    task.info.duration task.info.demand long e in
                let early : s ≤ℤ t = least t starts in
                let ok1 = is_after_earlier s t task.info.latest_start_time early latest in
                let ok2 =
                  is_after_earlier (s +ℤ task.info.duration) (t +ℤ task.info.duration)
                    task.info.deadline
                    (omega
                      (arith, early, +ℤ_parts s task.info.duration, +ℤ_parts t task.info.duration))
                    deadline in
                rw (free, candidate_of, registered, allowed, e, ok1, ok2) refl
          ]

  -- Where some known actor is available and allowed for a task, and its windows and reservations
  -- allow a start that is not before now, the task's release and its dependencies, by the latest
  -- start and in time for the deadline, select_best_candidate finds a candidate; for a task of
  -- positive length whose dependencies are done.
  pub select_best_candidate_found :
      (keys : List String) (completions : CompletionTable) (now : Time)
      (profile : ActorRankingProfile) (key : String) (actor : Actor D) (ready t : Time)
      → contains key keys ≡ true
      → contains key unavailable ≡ false
      → get key registry ≡ some actor
      → actor_is_allowed task actor state ≡ true
      → dependency_ready_time task completions ≡ some ready
      → pos 0 <ℤ task.info.duration
      → StartsAt actor
          (reservations_of key table)
          (max_ℤ (max_ℤ now (effective_release_time task state)) ready)
          task.info.duration
          task.info.demand
          t
      → IsBy t task.info.latest_start_time
      → IsBy (t +ℤ task.info.duration) task.info.deadline
      → is_some
          (select_best_candidate task keys unavailable registry state table completions now profile)
        ≡ true
  unfolding select_best_candidate
  select_best_candidate_found keys completions now profile key actor ready t known free registered
        allowed waits long starts latest deadline =
      let release = max_ℤ (max_ℤ now (effective_release_time task state)) ready in
      let found =
        candidate_of_found release key actor t free registered allowed long starts latest
          deadline in
      elim (Option-cases (candidate_of task unavailable registry state table release key)) [
        | inl e ↦ absurd (cc (rw e at found))
        | inr (c, e) ↦
            rw (waits, select_best_candidate)
              (select_from_found profile
                (candidate_of task unavailable registry state table release) key none keys known e)
      ]
