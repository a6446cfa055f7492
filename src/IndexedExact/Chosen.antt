-- ===== src/IndexedExact/Chosen.antt =====
-- What holds of the candidates that `candidates_for_task` of indexed_exact_backend.cpp collects.
use mathlib.Core.Option.{some-injective}
use task_orchestrator.Base.{
  subst, ap, String, pos, ◌+ℤ◌, ◌≤ℤ◌, ltb_ℤ, leb_ℤ, max_ℤ-bounds, ◌≡◌, refl, ◌⊎◌, inl, inr, true,
  false, ◌||◌, List, [], ◌∷◌, Option, none, some, arith, Bool-cases, Any, All, All-mono,
  All-sort_by, In, if_cases, all_of, contains, +ℤ_parts,
}
use task_orchestrator.Data.{Time, Doubles}
use task_orchestrator.Workflow.{is_empty}
use task_orchestrator.Actor.Availability.{FitsIn}
use task_orchestrator.Scheduler.Types.{ScheduledInterval}
use task_orchestrator.Scheduler.Capacity.Demand.{HasRoom}
use task_orchestrator.Scheduler.Capacity.Possible.{search_windows-IsPossibleIn}
use task_orchestrator.ConstraintIndex.{
  OptimizerActor, OptimizerTask, ConstraintIndex, ActorRef, eligible_actors_for_task,
}
use task_orchestrator.IndexedExact.State.{SearchState, reservations_for_actor}
use task_orchestrator.IndexedExact.Candidates.{
  Candidate, earliest_start, candidate_before, ready_from, mutex_blocked, has_capabilities, is_past,
  release_of, candidate_at, candidate_from, candidate_on, lacks_capability, push_some,
  collect_candidates, candidates_for_task,
}

-- No time has passed a limit that is not there.
abbrev pub Within : Time → Option Time → Type 0
Within t none = Unit
Within t (some limit) = t ≤ℤ limit

not_past : (t : Time) (limit : Option Time) → is_past t limit ≡ false → Within t limit
not_past t none h = tt
not_past t (some limit) h = ground arith

module _ {D : Type 0} (doubles : Doubles D) where
  -- The actor can do the task from `start` on, whatever else it does according to the reservations.
  pub record Suits (t : OptimizerTask D) (rs : List ScheduledInterval) (actor : OptimizerActor D)
      (start : Time) : Type 0 where
    pub capacity : t.demand ≤ℤ actor.capacity
    pub capable : has_capabilities t actor ≡ true
    pub open_ : (t.duration ≤ℤ pos 0) ⊎ Any (FitsIn start t.duration) actor.availability_windows
    pub room : HasRoom rs actor.capacity start (start +ℤ t.duration) t.demand

  pub record IsTimely (t : OptimizerTask D) (s : SearchState) (start : Time) : Type 0 where
    pub released : t.release_time ≤ℤ start
    pub waited : ready_from (pos 0) t.dependency_task_ids s.completion_times ≤ℤ start
    pub latest : Within start t.latest_start_time
    pub deadline : Within (start +ℤ t.duration) t.deadline

  -- The candidate is of this actor, at a start that is possible.
  pub record IsCandidate (t : OptimizerTask D) (s : SearchState) (actor : OptimizerActor D)
      (c : Candidate D) : Type 0 where
    pub same : c ≡ candidate_at doubles t s actor c.start_time
    pub suits : Suits t (reservations_for_actor s actor.id) actor c.start_time
    pub timely : IsTimely t s c.start_time

  pub IsCandidate-parts :
      {t : OptimizerTask D} {s : SearchState} {actor : OptimizerActor D} {c : Candidate D}
      → IsCandidate t s actor c
      → (c.actor_id ≡ actor.id) × (c.end_time ≡ c.start_time +ℤ t.duration)
  unfolding candidate_at
  IsCandidate-parts h = (ap Candidate.actor_id h.same, ap Candidate.end_time h.same)

  module _ (t : OptimizerTask D) (s : SearchState) (actor : OptimizerActor D) where
    abbrev rs : List ScheduledInterval
    rs = reservations_for_actor s actor.id

    no_room_needed :
        (start : Time)
        → t.duration ≤ℤ pos 0
        → HasRoom rs actor.capacity start (start +ℤ t.duration) t.demand
    no_room_needed start h x from to = absurd (omega (arith, +ℤ_parts start t.duration))

    earliest_start-possible :
        {start : Time}
        → earliest_start actor rs (release_of doubles t s) t.duration t.demand ≡ some start
        → (release_of doubles t s ≤ℤ start)
          × ((t.duration ≤ℤ pos 0) ⊎ Any (FitsIn start t.duration) actor.availability_windows)
          × HasRoom rs actor.capacity start (start +ℤ t.duration) t.demand
    unfolding earliest_start
    earliest_start-possible {start} h = elim (Bool-cases (leb_ℤ t.duration (pos 0))) [
      | inl e ↦
          let same : release_of doubles t s ≡ start = some-injective _ start (rw e at h) in
          (rw same (omega arith), inl (ground arith), no_room_needed start (ground arith))
      | inr e ↦
          let p =
            search_windows-IsPossibleIn rs actor.capacity t.duration t.demand
              (release_of doubles t s) actor.availability_windows (rw e at h) in
          (p.released, inr p.fits, p.room)
    ]

    -- Where the task needs no capability, the actor has all that it needs.
    none_required : is_empty t.required_capabilities ≡ true → has_capabilities t actor ≡ true
    unfolding has_capabilities
    none_required h = nothing t.required_capabilities h
      where
        nothing :
            (cs : List String)
            → is_empty cs ≡ true
            → all_of (λ x. contains x actor.capabilities) cs ≡ true
        nothing [] h = refl
        nothing (x ∷ cs) h = cc

    has_all : lacks_capability doubles t s actor ≡ false → has_capabilities t actor ≡ true
    has_all h = elim (Bool-cases (is_empty t.required_capabilities)) [
      | inl e ↦ none_required e
      | inr e ↦ ground (arith, e, h)
    ]

    candidate_from-IsCandidate :
        (c : Candidate D)
        → t.demand ≤ℤ actor.capacity
        → lacks_capability doubles t s actor ≡ false
        → (o : Option Time)
        → earliest_start actor rs (release_of doubles t s) t.duration t.demand ≡ o
        → candidate_from doubles t s actor o ≡ some c
        → IsCandidate t s actor c
    unfolding candidate_from candidate_at
    candidate_from-IsCandidate c small able none e h = cc
    candidate_from-IsCandidate c small able (some start) e h =
        let late = is_past start t.latest_start_time in
        let over = is_past (start +ℤ t.duration) t.deadline in
        elim (Bool-cases (late || over)) [
          | inl past ↦ absurd (ground (arith, past, h))
          | inr timely ↦
              let same : candidate_at doubles t s actor start ≡ c =
                some-injective (candidate_at doubles t s actor start) c (rw timely at h) in
              let p = earliest_start-possible e in
              let bounds =
                max_ℤ-bounds t.release_time
                  (ready_from (pos 0) t.dependency_task_ids s.completion_times) in
              subst (IsCandidate t s actor) same (record {
                same = refl;
                suits = record {
                  capacity = small;
                  capable = has_all able;
                  open_ = p.1;
                  room = p.2;
                };
                timely = record {
                  released = omega (arith, p.0, bounds);
                  waited = omega (arith, p.0, bounds);
                  latest = not_past start t.latest_start_time (ground (arith, timely));
                  deadline = not_past (start +ℤ t.duration) t.deadline (ground (arith, timely));
                };
              })
        ]

    candidate_on-IsCandidate :
        (c : Candidate D) → candidate_on doubles t s actor ≡ some c → IsCandidate t s actor c
    unfolding candidate_on
    candidate_on-IsCandidate c h =
        let start = earliest_start actor rs (release_of doubles t s) t.duration t.demand in
        elim (Bool-cases (ltb_ℤ actor.capacity t.demand)) [
          | inl big ↦ absurd (ground (arith, big, h))
          | inr small ↦ elim (Bool-cases (lacks_capability doubles t s actor)) [
            | inl lack ↦ absurd (ground (arith, small, lack, h))
            | inr able ↦
                candidate_from-IsCandidate c (ground (arith, small)) able start refl
                  (rw (small, able) at h)
          ]
        ]

  module _ (t : OptimizerTask D) (s : SearchState) where
    -- Some eligible actor is the candidate's.
    abbrev pub IsOf : List (ActorRef D) → Candidate D → Type 0
    IsOf refs c = Any (λ ref. IsCandidate t s ref.1 c) refs

    collect_candidates-IsOf :
        (refs : List (ActorRef D)) → All (IsOf refs) (collect_candidates doubles t s refs)
    unfolding collect_candidates
    collect_candidates-IsOf [] = tt
    collect_candidates-IsOf (ref ∷ refs) =
        let later =
          All-mono (IsOf refs) (IsOf (ref ∷ refs)) (collect_candidates doubles t s refs)
            (λ c h. inr h) (collect_candidates-IsOf refs) in
        pushed (candidate_on doubles t s ref.1) (collect_candidates doubles t s refs)
          (λ c e. inl (candidate_on-IsCandidate t s ref.1 c e)) later
      where
        pushed :
            (o : Option (Candidate D)) (cs : List (Candidate D))
            → ((c : Candidate D) → o ≡ some c → IsOf (ref ∷ refs) c)
            → All (IsOf (ref ∷ refs)) cs
            → All (IsOf (ref ∷ refs)) (push_some o cs)
        pushed none cs f a = a
        pushed (some c) cs f a = (f c refl, a)

    pub candidates_for_task-IsOf :
        (index : ConstraintIndex D)
        → All (IsOf (eligible_actors_for_task index t)) (candidates_for_task doubles t s index)
    unfolding candidates_for_task
    candidates_for_task-IsOf index =
        let refs = eligible_actors_for_task index t in
        if_cases (All (IsOf refs)) (mutex_blocked t s) (λ e. tt)
          (λ e.
            All-sort_by candidate_before (IsOf refs) (collect_candidates doubles t s refs)
              (collect_candidates-IsOf refs))

    pub candidates_for_task-unblocked :
        (index : ConstraintIndex D) (c : Candidate D)
        → In c (candidates_for_task doubles t s index)
        → mutex_blocked t s ≡ false
    unfolding candidates_for_task
    candidates_for_task-unblocked index c m = elim (Bool-cases (mutex_blocked t s)) [
      | inl e ↦ absurd (rw e at m)
      | inr e ↦ e
    ]
