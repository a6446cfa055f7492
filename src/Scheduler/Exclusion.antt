-- ===== src/Scheduler/Exclusion.antt =====
-- No task is assigned twice by `Scheduler::plan`, nor a task after one that it excludes.
use task_orchestrator.Base.{
  AllPairs-append, AllPairs-sort_by, sort_by, ◌⊎◌, ◌≡◌, ◌≢◌, sym, subst, inl, inr, String, Bool,
  true, false, ◌&&◌, ◌||◌, List, [], ◌∷◌, ◌++◌, Option, none, some, contains, add_id,
  contains-append, erase_value, contains-erase_value, lookup, eq_iff, ◌==◌, arith, All, AllPairs,
  All-mono, All-append, any_of, Bool-cases, Option-cases,
}
use task_orchestrator.Data.{Time, Doubles}
use task_orchestrator.Workflow.{Workflow}
use task_orchestrator.Strategy.{SchedulingStrategy}
use task_orchestrator.Scheduler.Types.{
  ActorRankingProfile, Assignment, WorkflowState, ActorRegistry, PendingTask, CandidateSelection,
}
use task_orchestrator.Scheduler.Eligibility.{mutex_conflict}
use task_orchestrator.Scheduler.Plan.{
  assignment_before, PlanState, place, drop_task, PlanInput, plan_start, plan_end, plan,
}
use task_orchestrator.Scheduler.Invariants.{IsPlaceable, plan_end_inv}
use task_orchestrator.Scheduler.Placement.{planned_input, plan-assignments, All-plan}

-- The tasks that a task's process excludes.
abbrev pub exclusions : {D : Type 0} → PendingTask D → List String
exclusions task = elim task.process [
  | none ↦ []
  | some process ↦ process.mutually_exclusive_task_ids
]

unlisted :
    (blocked ids : List String) (t : String)
    → any_of (λ other. contains other blocked) ids ≡ false
    → contains t ids ≡ true
    → contains t blocked ≡ false
unfolding contains
unlisted blocked [] t h k = cc
unlisted blocked (id ∷ ids) t h k = elim (Bool-cases (id == t)) [
  | inl e ↦ subst (λ i. contains i blocked ≡ false) ((eq_iff id t).0 e) (ground (arith, h))
  | inr e ↦ unlisted blocked ids t (ground (arith, h)) (ground (arith, k))
]

mutex_conflict-unlisted :
    {D : Type 0} (task : PendingTask D) (blocked : List String) (t : String)
    → mutex_conflict task blocked ≡ false
    → contains t (exclusions task) ≡ true
    → contains t blocked ≡ false
unfolding mutex_conflict
mutex_conflict-unlisted task blocked t h k = elim (Option-cases task.process) [
  | inl e ↦ absurd (unfold contains in cc (rw e at k))
  | inr (process, e) ↦
      unlisted blocked process.mutually_exclusive_task_ids t (rw (e, mutex_conflict) at h)
        (rw e at k)
]

module _ {D : Type 0} (m : List (String × PendingTask D)) where
  -- The process of the assignment's task excludes the task `t`.
  abbrev pub excludes : Assignment → String → Bool
  excludes a t = elim (lookup a.task_id m) [
    | none ↦ false
    | some task ↦ contains t (exclusions task)
  ]

  -- The assignments are of two tasks, and the later one's does not exclude the earlier one's.
  abbrev pub Apart : Assignment → Assignment → Type 0
  Apart earlier later = (earlier.task_id ≢ later.task_id) × (excludes later earlier.task_id ≡ false)

  -- The assignments are of two tasks, of which at most one excludes the other.
  abbrev pub IsCompatible : Assignment → Assignment → Type 0
  IsCompatible a b =
      (a.task_id ≢ b.task_id) × ((excludes a b.task_id && excludes b a.task_id) ≡ false)

  IsCompatible-sym : (a b : Assignment) → IsCompatible a b → IsCompatible b a
  IsCompatible-sym a b h = (λ e. h.0 (sym e), ground (arith, h.1))

  All-IsCompatible :
      (a : Assignment) (bs : List Assignment) → All (Apart a) bs → All (IsCompatible a) bs
  All-IsCompatible a bs h =
      All-mono (Apart a) (IsCompatible a) bs (λ b k. (k.0, ground (arith, k.1))) h

  AllPairs-IsCompatible : (xs : List Assignment) → AllPairs Apart xs → AllPairs IsCompatible xs
  AllPairs-IsCompatible [] h = tt
  AllPairs-IsCompatible (x ∷ xs) h = (All-IsCompatible x xs h.0, AllPairs-IsCompatible xs h.1)

  -- The assigned tasks are apart, are blocked, and do not remain; none excludes a task that was
  -- blocked to begin with.
  abbrev IsExclusive : List String → PlanState → Type 0
  IsExclusive first st =
      AllPairs Apart st.assignments
      × All (λ a. contains a.task_id st.blocked_task_ids ≡ true) st.assignments
      × All (λ a. contains a.task_id st.remaining_task_ids ≡ false) st.assignments
      × ((t : String) → contains t first ≡ true → contains t st.blocked_task_ids ≡ true)
      × All (λ a. (t : String) → excludes a t ≡ true → contains t first ≡ false) st.assignments

contains-add_id :
    (x y : String) (ys : List String) → contains y (add_id x ys) ≡ (x == y || contains y ys)
unfolding add_id contains
contains-add_id x y ys = ground (arith, contains-append y ys (x ∷ []), eq_iff x y)

contains-erase_value-false :
    (x y : String) (ys : List String)
    → contains y ys ≡ false
    → contains y (erase_value x ys) ≡ false
contains-erase_value-false x y ys h = ground (arith, contains-erase_value x y ys)

module _ {D : Type 0} ⦃d : Doubles D⦄ (input : PlanInput D) (first : List String) where
  drop-IsExclusive :
      (task : PendingTask D) (st : PlanState)
      → IsExclusive input.pending_by_id first st
      → IsExclusive input.pending_by_id first (drop_task task st)
  unfolding drop_task
  drop-IsExclusive task st (apart, blocked, gone, kept, clear) = (
    apart,
    blocked,
    All-mono _ (λ a. contains a.task_id (erase_value task.info.id st.remaining_task_ids) ≡ false)
        st.assignments
        (λ a. contains-erase_value-false task.info.id a.task_id st.remaining_task_ids) gone,
    kept,
    clear,
  )

  module _ (task : PendingTask D) (best : CandidateSelection D) (st : PlanState)
      (ok : IsPlaceable input st task best) where
    abbrev new_one : Assignment
    new_one = record {
      task_id = task.info.id;
      actor_id = best.candidate.actor_id;
      start_time = best.candidate.start_time;
    }

    -- The task being placed excludes none of the blocked ones.
    new-excludes :
        (t : String)
        → excludes input.pending_by_id new_one t ≡ true
        → contains t st.blocked_task_ids ≡ false
    new-excludes t h =
        mutex_conflict-unlisted task st.blocked_task_ids t ok.no_conflict
          (rw (ok.indexed, excludes) at h)

    new-Apart :
        (a : Assignment)
        → contains a.task_id st.blocked_task_ids ≡ true
        → contains a.task_id st.remaining_task_ids ≡ false
        → Apart input.pending_by_id a new_one
    new-Apart a blocked gone = (
      λ e. absurd (cc (e, gone, ok.remains)),
      elim (Bool-cases (excludes input.pending_by_id new_one a.task_id)) [
        | inl h ↦ absurd (cc (new-excludes a.task_id h, blocked))
        | inr h ↦ h
      ],
    )

    place-IsExclusive :
        IsExclusive input.pending_by_id first st
        → IsExclusive input.pending_by_id first (place task best st)
    unfolding place
    place-IsExclusive (apart, blocked, gone, kept, clear) =
        let xs = st.assignments in
        let id = task.info.id in
        (
          AllPairs-append (Apart input.pending_by_id) xs new_one apart (each_apart xs blocked gone),
          All-append _ xs (new_one ∷ [])
              (All-mono _ (λ a. contains a.task_id (add_id id st.blocked_task_ids) ≡ true) xs
                (λ a h. ground (arith, h, contains-add_id id a.task_id st.blocked_task_ids))
                blocked)
              (ground (arith, eq_iff id id, contains-add_id id id st.blocked_task_ids), tt),
          All-append _ xs (new_one ∷ [])
              (All-mono _ (λ a. contains a.task_id (erase_value id st.remaining_task_ids) ≡ false)
                xs (λ a. contains-erase_value-false id a.task_id st.remaining_task_ids) gone)
              (ground (arith, eq_iff id id, contains-erase_value id id st.remaining_task_ids), tt),
          (λ t h. ground (arith, kept t h, contains-add_id id t st.blocked_task_ids)),
          All-append _ xs (new_one ∷ []) clear (λ t h. clear_new t (new-excludes t h), tt),
        )
      where
        each_apart :
            (xs : List Assignment)
            → All (λ a. contains a.task_id st.blocked_task_ids ≡ true) xs
            → All (λ a. contains a.task_id st.remaining_task_ids ≡ false) xs
            → All (λ a. Apart input.pending_by_id a new_one) xs
        each_apart [] b g = tt
        each_apart (x ∷ xs) b g = (new-Apart x b.0 g.0, each_apart xs b.1 g.1)

        clear_new : (t : String) → contains t st.blocked_task_ids ≡ false → contains t first ≡ false
        clear_new t h = elim (Bool-cases (contains t first)) [
          | inl e ↦ absurd (cc (kept t e, h))
          | inr e ↦ e
        ]

module _ {D : Type 0} ⦃d : Doubles D⦄ (workflow : Workflow D) (state : WorkflowState)
    (registry : ActorRegistry D) (now : Time) (strategy : Option SchedulingStrategy)
    (profile : Option ActorRankingProfile) where
  abbrev pub exclusion_index : List (String × PendingTask D)
  exclusion_index = (planned_input workflow state registry now strategy profile).pending_by_id

  plan_end-IsExclusive :
      IsExclusive exclusion_index
        (state.completed_tasks ++ state.assigned_tasks)
        (plan_end workflow state registry now strategy profile)
  plan_end-IsExclusive =
      let input = planned_input workflow state registry now strategy profile in
      let first = state.completed_tasks ++ state.assigned_tasks in
      plan_end_inv workflow state registry now strategy profile (IsExclusive exclusion_index first)
        (λ task st h. drop-IsExclusive input first task st h)
        (λ task best st ok h. place-IsExclusive input first task best st ok h)
        (unfold plan_start in (tt, tt, tt, (λ t h. h), tt))

  -- No assignment's task excludes a task that is completed or in flight.
  abbrev pub IsClear : Assignment → Type 0
  IsClear a =
      (t : String)
      → excludes exclusion_index a t ≡ true
      → contains t (state.completed_tasks ++ state.assigned_tasks) ≡ false

  -- Any two assignments that Scheduler::plan makes are of two tasks, and the process of the one
  -- made later does not list the other's task as mutually exclusive; what it returns is nothing or
  -- these, sorted. So of any two that it returns at most one lists the other's task, and none
  -- lists a task that is completed or in flight.
  pub plan-Apart :
      let placed = (plan_end workflow state registry now strategy profile).assignments in
      let returned = (plan workflow state registry now strategy profile).assignments in
      AllPairs (Apart exclusion_index) placed
      × ((returned ≡ []) ⊎ (returned ≡ sort_by assignment_before placed))
      × AllPairs (IsCompatible exclusion_index) returned
      × All IsClear returned
  plan-Apart =
      let all = (plan_end workflow state registry now strategy profile).assignments in
      let (apart, blocked, gone, kept, clear) = plan_end-IsExclusive in
      let cases = plan-assignments workflow state registry now strategy profile in
      (
        apart,
        cases,
        elim cases [
          | inl e ↦ rw e tt
          | inr e ↦ rw e (
              AllPairs-sort_by (IsCompatible exclusion_index) (IsCompatible-sym exclusion_index)
                assignment_before all (AllPairs-IsCompatible exclusion_index all apart))
        ],
        All-plan workflow state registry now strategy profile _ clear,
      )
