-- ===== src/IndexedExact/Sound.antt =====
-- Every assignment that the search of indexed_exact_backend.cpp makes is sound, and stays so.
use mathlib.Core.List.{map-append}
use task_orchestrator.Base.{
  ◌≡◌, ◌≢◌, refl, sym, subst, pos, ◌+ℤ◌, ◌≤ℤ◌, String, ◌==◌, eq_iff, true, false, not, ◌&&◌, List,
  [], ◌∷◌, ◌++◌, some, contains, contains-add_id, contains-any_of, lookup, lookup-assign,
  all_of-All, All, All-at, All-mono, All-append, All-intro, AllPairs, AllPairs-append, Any,
  Any-append_left, Any-append_right, Any-mono, Any-In, In, inl, inr, ◌⊎◌, arith, Bool-cases,
  ≤ℤ-trans,
}
use task_orchestrator.Data.{Time, Doubles}
use task_orchestrator.ConstraintIndex.{
  OptimizerTask, OptimizationModel, ConstraintIndex, ActorRef, eligible_actors_for_task,
  dependencies_satisfied,
}
use task_orchestrator.Optimizer.Types.{OptimizedAssignment}
use task_orchestrator.IndexedExact.State.{SearchState, SearchAssignment}
use task_orchestrator.IndexedExact.Candidates.{
  Candidate, candidates_for_task, is_ready, ready_from, mutex_blocked,
}
use task_orchestrator.IndexedExact.Solve.{assign_task, drop_task, search_assignment, root}
use task_orchestrator.IndexedExact.Steps.{Step, drops, takes, Reach, here, next, ready-undecided}
use task_orchestrator.IndexedExact.Chosen.{
  Within, IsCandidate-parts, IsOf, candidates_for_task-IsOf, candidates_for_task-unblocked,
}
use task_orchestrator.IndexedExact.Booked.{plan_of}
use task_orchestrator.IndexedExact.Placed.{
  ready_from-complete, CanDo, IsPlacedFor, IsOver, IsMadeIn, IsApart,
}

module _ {D : Type 0} (doubles : Doubles D) (model : OptimizationModel D)
    (index : ConstraintIndex D) where
  record IsSound (s : SearchState) : Type 0 where
    made : All ((IsMadeIn doubles model index) (plan_of s)) (plan_of s)
    apart : AllPairs (IsApart doubles model index) (plan_of s)
    listed : All (λ a. contains a.task_id s.scheduled ≡ true) (plan_of s)
    finished :
        (d : String)
        → contains d s.scheduled ≡ true
        → (e : Time) × (lookup d s.completion_times ≡ some e)
          × Any (λ b. (b.task_id ≡ d) × (b.end_time ≡ e)) (plan_of s)

  root-IsSound : IsSound (root model)
  unfolding root
  root-IsSound = record {
    made = tt;
    apart = tt;
    listed = tt;
    finished = λ d h. absurd (none_there d h);
  }
    where
      none_there : (d : String) → contains d [] ≡ true → ⊥
      none_there d h = unfold contains in cc

  module _ (s : SearchState) (t : OptimizerTask D) (c : Candidate D) (sound : IsSound s)
      (m : In t model.tasks) (ready : is_ready s t ≡ true)
      (chosen : In c (candidates_for_task doubles t s index)) where
    abbrev added : OptimizedAssignment
    added = (search_assignment t c).assignment

    plan_of-assign : plan_of (assign_task t s c) ≡ plan_of s ++ added ∷ []
    unfolding assign_task
    plan_of-assign =
        map-append SearchAssignment.assignment s.assignments (search_assignment t c ∷ [])

    satisfied : All (λ d. contains d s.scheduled ≡ true) t.dependency_task_ids
    unfolding is_ready dependencies_satisfied
    satisfied =
        All-mono (λ d. (contains d s.scheduled && not (contains d s.dropped)) ≡ true)
          (λ d. contains d s.scheduled ≡ true) t.dependency_task_ids (λ d h. ground (arith, h))
          (all_of-All (λ d. contains d s.scheduled && not (contains d s.dropped))
            t.dependency_task_ids (ground (arith, ready)))

    -- What the task waits for is over when it starts.
    over :
        ready_from (pos 0) t.dependency_task_ids s.completion_times ≤ℤ c.start_time
        → All ((IsOver doubles model index) (plan_of s) c.start_time) t.dependency_task_ids
    over waited =
        All-intro ((IsOver doubles model index) (plan_of s) c.start_time) t.dependency_task_ids
          λ d k.
            let (e, found, there) =
              sound.finished d
                (All-at (λ x. contains x s.scheduled ≡ true) d t.dependency_task_ids satisfied k) in
            let before =
              ready_from-complete t.dependency_task_ids s.completion_times (pos 0) d k found in
            Any-mono (λ b. (b.task_id ≡ d) × (b.end_time ≡ e))
              (λ b. (b.task_id ≡ d) × (b.end_time ≤ℤ c.start_time)) (plan_of s)
              (λ b h. (h.0, rw h.1 (≤ℤ-trans e _ c.start_time before waited))) there

    placed_on :
        (refs : List (ActorRef D))
        → IsOf doubles t s refs c
        → Any ((CanDo doubles model index) t added) refs
          × (c.end_time ≡ c.start_time +ℤ t.duration)
          × (t.release_time ≤ℤ c.start_time)
          × (ready_from (pos 0) t.dependency_task_ids s.completion_times ≤ℤ c.start_time)
          × Within c.start_time t.latest_start_time
          × Within (c.start_time +ℤ t.duration) t.deadline
    placed_on [] o = absurd o
    placed_on (ref ∷ refs) (inr o) =
        let rest = placed_on refs o in (inr rest.0, rest.1, rest.2, rest.3, rest.4, rest.5)
    placed_on (ref ∷ refs) (inl o) =
        let parts = IsCandidate-parts doubles o in
        (
          inl (record {
            id = sym parts.0;
            large = o.suits.capacity;
            capable = o.suits.capable;
            opens = o.suits.open_;
          }),
          parts.1,
          o.timely.released,
          o.timely.waited,
          o.timely.latest,
          o.timely.deadline,
        )

    added-IsMadeIn : (IsMadeIn doubles model index) (plan_of s) added
    added-IsMadeIn =
        let refs = eligible_actors_for_task index t in
        let p = placed_on refs (
          All-at (IsOf doubles t s refs) c (candidates_for_task doubles t s index)
            (candidates_for_task-IsOf doubles t s index) chosen) in
        Any-In
          (λ x.
            (IsPlacedFor doubles model index) x added
            × All ((IsOver doubles model index) (plan_of s) added.start_time) x.dependency_task_ids)
          t model.tasks m
          (
            record {
              name = refl;
              ends = p.1;
              released = p.2;
              latest = p.4;
              deadline = p.5;
              actor = p.0;
            },
            over p.3,
          )

    -- An assignment that was made stays so when the plan grows.
    made_before : All ((IsMadeIn doubles model index) (plan_of s ++ added ∷ [])) (plan_of s)
    made_before =
        All-mono ((IsMadeIn doubles model index) (plan_of s))
          ((IsMadeIn doubles model index) (plan_of s ++ added ∷ [])) (plan_of s) (λ a h. longer a h)
          sound.made
      where
        longer :
            (a : OptimizedAssignment)
            → (IsMadeIn doubles model index) (plan_of s) a
            → (IsMadeIn doubles model index) (plan_of s ++ added ∷ []) a
        longer a h =
            Any-mono
              (λ x.
                (IsPlacedFor doubles model index) x a
                × All ((IsOver doubles model index) (plan_of s) a.start_time) x.dependency_task_ids)
              (λ x.
                (IsPlacedFor doubles model index) x a
                × All ((IsOver doubles model index) (plan_of s ++ added ∷ []) a.start_time)
                    x.dependency_task_ids)
              model.tasks
              (λ x k. (
                k.0,
                All-mono ((IsOver doubles model index) (plan_of s) a.start_time)
                    ((IsOver doubles model index) (plan_of s ++ added ∷ []) a.start_time)
                    x.dependency_task_ids
                    (λ d o.
                      Any-append_left (λ b. (b.task_id ≡ d) × (b.end_time ≤ℤ a.start_time))
                        (plan_of s) (added ∷ []) o)
                    k.1,
              ))
              h

    undecided_yet : contains t.id s.scheduled ≡ false
    undecided_yet = ground (arith, ready-undecided s t ready)

    none_excluded : All (λ a. (IsApart doubles model index) a added) (plan_of s)
    none_excluded =
        All-mono (λ a. contains a.task_id s.scheduled ≡ true)
          (λ a. (IsApart doubles model index) a added) (plan_of s)
          (λ a h. (
            other a h,
            Any-In
                (λ x.
                  (x.id ≡ added.task_id)
                  × (contains a.task_id x.mutually_exclusive_task_ids ≡ false))
                t model.tasks m (refl, clear a h),
          ))
          sound.listed
      where
        other :
            (a : OptimizedAssignment)
            → contains a.task_id s.scheduled ≡ true
            → a.task_id ≢ added.task_id
        other a h e =
            let k : contains t.id s.scheduled ≡ true =
              subst (λ i. contains i s.scheduled ≡ true) e h in
            absurd (ground (arith, k, undecided_yet))

        clear :
            (a : OptimizedAssignment)
            → contains a.task_id s.scheduled ≡ true
            → contains a.task_id t.mutually_exclusive_task_ids ≡ false
        clear a h =
            contains-any_of (λ x. contains x s.scheduled) a.task_id t.mutually_exclusive_task_ids
              (unfold mutex_blocked in candidates_for_task-unblocked doubles t s index c chosen) h

    finished_after :
        (d : String)
        → contains d (assign_task t s c).scheduled ≡ true
        → (e : Time) × (lookup d (assign_task t s c).completion_times ≡ some e)
          × Any (λ b. (b.task_id ≡ d) × (b.end_time ≡ e)) (plan_of s ++ added ∷ [])
    unfolding assign_task
    finished_after d h = elim (Bool-cases (t.id == d)) [
      | inl e ↦ (
        c.end_time,
        rw (lookup-assign t.id d c.end_time s.completion_times, e) refl,
        Any-append_right (λ b. (b.task_id ≡ d) × (b.end_time ≡ c.end_time)) (plan_of s) (added ∷ [])
            (inl ((eq_iff t.id d).0 e, refl)),
      )
      | inr e ↦
          let (end, found, there) =
            sound.finished d (ground (arith, h, e, contains-add_id t.id d s.scheduled)) in
          (
            end,
            rw (lookup-assign t.id d c.end_time s.completion_times, e) found,
            Any-append_left (λ b. (b.task_id ≡ d) × (b.end_time ≡ end)) (plan_of s) (added ∷ [])
                there,
          )
    ]

    listed_after :
        (a : OptimizedAssignment)
        → (contains a.task_id s.scheduled ≡ true) ⊎ (t.id ≡ a.task_id)
        → contains a.task_id (assign_task t s c).scheduled ≡ true
    unfolding assign_task
    listed_after a (inl h) = ground (arith, h, contains-add_id t.id a.task_id s.scheduled)
    listed_after a (inr h) =
        ground (arith, (eq_iff t.id a.task_id).1 h, contains-add_id t.id a.task_id s.scheduled)

    assign_task-IsSound : IsSound (assign_task t s c)
    assign_task-IsSound =
        let longer = plan_of s ++ added ∷ [] in
        let grown = sym plan_of-assign in
        let last =
          Any-mono
            (λ x.
              (IsPlacedFor doubles model index) x added
              × All ((IsOver doubles model index) (plan_of s) added.start_time)
                  x.dependency_task_ids)
            (λ x.
              (IsPlacedFor doubles model index) x added
              × All ((IsOver doubles model index) longer added.start_time) x.dependency_task_ids)
            model.tasks
            (λ x k. (
              k.0,
              All-mono ((IsOver doubles model index) (plan_of s) added.start_time)
                  ((IsOver doubles model index) longer added.start_time) x.dependency_task_ids
                  (λ d o.
                    Any-append_left (λ b. (b.task_id ≡ d) × (b.end_time ≤ℤ added.start_time))
                      (plan_of s) (added ∷ []) o)
                  k.1,
            ))
            added-IsMadeIn in
        record {
          made =
              subst (λ plan. All ((IsMadeIn doubles model index) plan) plan) grown
                (All-append ((IsMadeIn doubles model index) longer) (plan_of s) (added ∷ [])
                  made_before (last, tt));
          apart = subst (AllPairs (IsApart doubles model index)) grown (
              AllPairs-append (IsApart doubles model index) (plan_of s) added sound.apart
                none_excluded);
          listed =
              let P = λ (a : OptimizedAssignment).
                contains a.task_id (assign_task t s c).scheduled ≡ true in
              subst (All P) grown (
                All-append P (plan_of s) (added ∷ [])
                  (All-mono (λ a. contains a.task_id s.scheduled ≡ true) P (plan_of s)
                    (λ a h. listed_after a (inl h)) sound.listed)
                  (listed_after added (inr refl), tt));
          finished = λ d h.
              let (e, found, there) = finished_after d h in
              (e, found, subst (Any (λ b. (b.task_id ≡ d) × (b.end_time ≡ e))) grown there);
        }

  Reach-IsSound : {s : SearchState} → Reach doubles model index (root model) s → IsSound s
  Reach-IsSound here = root-IsSound
  Reach-IsSound (next r st) = Step-IsSound st (Reach-IsSound r)
    where
      Step-IsSound : {s s' : SearchState} → Step doubles model index s s' → IsSound s → IsSound s'
      Step-IsSound (drops t m h) k =
          unfold drop_task in
          (record { made = k.made; apart = k.apart; listed = k.listed; finished = k.finished })
      Step-IsSound {s} (takes t c m r e) k = assign_task-IsSound s t c k m r e

  pub Reach-IsMadeIn :
      {s : SearchState}
      → Reach doubles model index (root model) s
      → All ((IsMadeIn doubles model index) (plan_of s)) (plan_of s)
  Reach-IsMadeIn r = (Reach-IsSound r).made

  pub Reach-IsApart :
      {s : SearchState}
      → Reach doubles model index (root model) s
      → AllPairs (IsApart doubles model index) (plan_of s)
  Reach-IsApart r = (Reach-IsSound r).apart
