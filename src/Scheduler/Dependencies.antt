-- ===== src/Scheduler/Dependencies.antt =====
-- No assignment of `Scheduler::plan` starts before its task's dependencies are done.
use mathlib.Core.Option.{some-injective}
use mathlib.Core.Logic.{◌⊎◌}
use task_orchestrator.Base.{
  sort_by, All-sort_by, Any-sort_by, pos, ◌+ℤ◌, ◌≤ℤ◌, max_ℤ, max_ℤ-bounds, ◌≡◌, sym, subst, ◌∙◌,
  inl, inr, String, List, [], ◌∷◌, ◌++◌, Option, none, some, lookup, lookup-assign, eq_iff, ◌==◌,
  arith, contains, if◌then◌else◌, true, false, refl, assign, ◌||◌, All, Any, All-mono, All-append,
  Bool-cases, Option-cases,
}
use task_orchestrator.Data.{Time, Doubles}
use task_orchestrator.Workflow.{Workflow}
use task_orchestrator.Strategy.{SchedulingStrategy}
use task_orchestrator.Scheduler.Types.{
  ActorRankingProfile, Assignment, WorkflowState, ActorRegistry, PendingTask, CandidateSelection,
  CompletionTable,
}
use task_orchestrator.Scheduler.Capacity.Starts.{earliest_start_room}
use task_orchestrator.Scheduler.Tables.{
  value_or, duration_or_default, complete_completed, complete_assigned, initialize_completion_times,
}
use task_orchestrator.Scheduler.Eligibility.{
  dependencies_ready, dependency_ready_time, effective_release_time,
}
use task_orchestrator.Scheduler.Plan.{
  assignment_before, PlanState, place, drop_task, PlanInput, plan_start, plan_end, plan,
}
use task_orchestrator.Scheduler.Selection.{select_best_candidate-IsCandidate}
use task_orchestrator.Scheduler.Invariants.{IsPlaceable, plan_end_inv}
use task_orchestrator.Scheduler.Placement.{planned_input, plan-assignments}

-- The task is done, by the table, at some time that is not after `time`.
abbrev DoneBy : CompletionTable → Time → String → Type 0
DoneBy table time dep = (t : Time) × (lookup dep table ≡ some t) × (t ≤ℤ time)

dependencies_ready-DoneBy :
    (table : CompletionTable) (from : Time) (deps : List String) {ready : Time}
    → dependencies_ready table from deps ≡ some ready
    → (from ≤ℤ ready) × All (DoneBy table ready) deps
unfolding dependencies_ready
dependencies_ready-DoneBy table from [] {ready} h =
    (subst (λ t. from ≤ℤ t) (some-injective from ready h) (omega arith), tt)
dependencies_ready-DoneBy table from (dep ∷ deps) {ready} h =
    elim (Option-cases (lookup dep table)) [
      | inl e ↦ absurd (cc (rw (e, dependencies_ready) at h))
      | inr (t, e) ↦
          let rest =
            dependencies_ready-DoneBy table (max_ℤ from t) deps (rw (e, dependencies_ready) at h) in
          let bounds = max_ℤ-bounds from t in
          (omega (arith, rest.0, bounds.0), ((t, e, omega (arith, rest.0, bounds.1)), rest.1))
    ]

-- What a task waits for.
abbrev pub dependencies : {D : Type 0} → PendingTask D → List String
dependencies task = elim task.process [ none ↦ [] | some process ↦ process.dependency_task_ids ]

dependency_ready_time-DoneBy :
    {D : Type 0} (task : PendingTask D) (table : CompletionTable) {ready : Time}
    → dependency_ready_time task table ≡ some ready
    → All (DoneBy table ready) (dependencies task)
unfolding dependency_ready_time
dependency_ready_time-DoneBy task table h = elim (Option-cases task.process) [
  | inl e ↦ rw e tt
  | inr (process, e) ↦
      rw e (dependencies_ready-DoneBy table (pos 0) process.dependency_task_ids (rw e at h)).1
]

Any-append_left : {A : Type 0} (P : A → Type 0) (xs ys : List A) → Any P xs → Any P (xs ++ ys)
Any-append_left P [] ys h = absurd h
Any-append_left P (x ∷ xs) ys (inl h) = inl h
Any-append_left P (x ∷ xs) ys (inr h) = inr (Any-append_left P xs ys h)

Any-append_right : {A : Type 0} (P : A → Type 0) (xs ys : List A) → Any P ys → Any P (xs ++ ys)
Any-append_right P [] ys h = h
Any-append_right P (x ∷ xs) ys h = inr (Any-append_right P xs ys h)

-- When a task that is completed or in flight is done: the end that is planned for a task in flight,
-- or now and its duration; the actual end of a completed task, or the planned one, or now.
abbrev pub planned_end : {D : Type 0} → Workflow D → WorkflowState → Time → String → Time
planned_end workflow state now dep =
    value_or (lookup dep state.task_planned_end_time) (now +ℤ duration_or_default workflow dep)

abbrev pub actual_end : WorkflowState → Time → String → Time
actual_end state now dep =
    value_or (lookup dep state.task_actual_completion_time)
      (value_or (lookup dep state.task_planned_end_time) now)

abbrev pub IsDoneAt : {D : Type 0} → Workflow D → WorkflowState → Time → String → Time → Type 0
IsDoneAt workflow state now dep t =
    ((contains dep state.assigned_tasks ≡ true) × (t ≡ planned_end workflow state now dep))
    ⊎ ((contains dep state.assigned_tasks ≡ false)
        × (contains dep state.completed_tasks ≡ true)
        × (t ≡ actual_end state now dep))

-- One round of a loop that assigns each id the value that it has.
assign-round :
    (f : String → Time) (id dep : String) (ids : List String) (table : CompletionTable)
    → (if contains dep ids then some (f dep) else lookup dep (assign id (f id) table))
      ≡ (if (id == dep || contains dep ids) then some (f dep) else lookup dep table)
assign-round f id dep ids table = elim (Bool-cases (id == dep)) [
  | inr e ↦ rw (lookup-assign id dep (f id) table, e) refl
  | inl e ↦
      rw (lookup-assign id dep (f id) table, e, (eq_iff id dep).0 e)
        (elim (Bool-cases (contains dep ids)) [ inl k ↦ rw k refl | inr k ↦ rw k refl ])
]

module _ {D : Type 0} (workflow : Workflow D) (state : WorkflowState) (now : Time) where
  complete_assigned-lookup :
      (ids : List String) (table : CompletionTable) (dep : String)
      → lookup dep (complete_assigned workflow state now ids table)
        ≡ (if contains dep ids then some (planned_end workflow state now dep) else lookup dep table)
  unfolding complete_assigned contains
  complete_assigned-lookup [] table dep = refl
  complete_assigned-lookup (id ∷ ids) table dep =
      complete_assigned-lookup ids (assign id (planned_end workflow state now id) table) dep
      ∙ assign-round (planned_end workflow state now) id dep ids table

  complete_completed-lookup :
      (ids : List String) (table : CompletionTable) (dep : String)
      → lookup dep (complete_completed state now ids table)
        ≡ (if contains dep ids then some (actual_end state now dep) else lookup dep table)
  unfolding complete_completed contains
  complete_completed-lookup [] table dep = refl
  complete_completed-lookup (id ∷ ids) table dep =
      complete_completed-lookup ids (assign id (actual_end state now id) table) dep
      ∙ assign-round (actual_end state now) id dep ids table

  initialize_completion_times-IsDoneAt :
      (dep : String) (t : Time)
      → lookup dep (initialize_completion_times workflow state now) ≡ some t
      → IsDoneAt workflow state now dep t
  unfolding initialize_completion_times
  initialize_completion_times-IsDoneAt dep t h =
      let completed = complete_completed state now state.completed_tasks [] in
      let h1 = sym (complete_assigned-lookup state.assigned_tasks completed dep) ∙ h in
      elim (Bool-cases (contains dep state.assigned_tasks)) [
        | inl e ↦ inl (e, sym (some-injective (planned_end workflow state now dep) t (rw e at h1)))
        | inr e ↦
            let h2 = sym (complete_completed-lookup state.completed_tasks [] dep) ∙ (rw e at h1) in
            elim (Bool-cases (contains dep state.completed_tasks)) [
              | inl k ↦ inr (e, k, sym (some-injective (actual_end state now dep) t (rw k at h2)))
              | inr k ↦ absurd (unfold lookup in cc (rw k at h2))
            ]
      ]

module _ {D : Type 0} (m : List (String × PendingTask D)) (Done : String → Time → Type 0) where
  -- The assignment is of `dep`, and ends at `t`.
  abbrev pub Finishes : String → Time → Assignment → Type 0
  Finishes dep t b =
      (b.task_id ≡ dep)
      × (task : PendingTask D) × (lookup b.task_id m ≡ some task)
      × (t ≡ b.start_time +ℤ task.info.duration)

  -- `dep` is done at `t` to begin with, or one of the assignments finishes it at `t`.
  abbrev pub IsFinish : List Assignment → String → Time → Type 0
  IsFinish assignments dep t = Done dep t ⊎ Any (Finishes dep t) assignments

  -- The assignment's task is pending, and whatever it waits for is done when the assignment starts.
  abbrev pub Respects : List Assignment → Assignment → Type 0
  Respects assignments a =
      (task : PendingTask D) × (lookup a.task_id m ≡ some task)
      × All (λ dep. (t : Time) × IsFinish assignments dep t × (t ≤ℤ a.start_time))
          (dependencies task)

  IsFinish-map :
      (xs ys : List Assignment)
      → ((P : Assignment → Type 0) → Any P xs → Any P ys)
      → (dep : String) (t : Time) → IsFinish xs dep t
      → IsFinish ys dep t
  IsFinish-map xs ys f dep t (inl h) = inl h
  IsFinish-map xs ys f dep t (inr h) = inr (f (Finishes dep t) h)

  Respects-map :
      (xs ys : List Assignment)
      → ((P : Assignment → Type 0) → Any P xs → Any P ys)
      → (a : Assignment) → Respects xs a
      → Respects ys a
  Respects-map xs ys f a (task, e, h) = (
    task,
    e,
    All-mono (λ dep. (t : Time) × IsFinish xs dep t × (t ≤ℤ a.start_time))
        (λ dep. (t : Time) × IsFinish ys dep t × (t ≤ℤ a.start_time)) (dependencies task)
        (λ dep (t, done, by). (t, IsFinish-map xs ys f dep t done, by)) h,
  )

  -- Every completion time in the table is explained, and every assignment respects its task's
  -- dependencies.
  abbrev IsOrdered : PlanState → Type 0
  IsOrdered st =
      ((dep : String) (t : Time)
        → lookup dep st.completion_times ≡ some t
        → IsFinish st.assignments dep t)
      × All (Respects st.assignments) st.assignments

module _ {D : Type 0} ⦃d : Doubles D⦄ (input : PlanInput D) (Done : String → Time → Type 0)
    (task : PendingTask D) (best : CandidateSelection D) (st : PlanState)
    (ok : IsPlaceable input st task best) where
  abbrev new_one : Assignment
  new_one = record {
    task_id = task.info.id;
    actor_id = best.candidate.actor_id;
    start_time = best.candidate.start_time;
  }

  place-IsOrdered :
      IsOrdered input.pending_by_id Done st
      → IsOrdered input.pending_by_id Done (place task best st)
  unfolding place
  place-IsOrdered (explained, respected) =
      let m = input.pending_by_id in
      let (ready, waits, c) =
        select_best_candidate-IsCandidate task input.state.unavailable_actors input.registry
          input.state st.reservations input.sorted_actor_ids st.completion_times input.now
          input.profile ok.selected in
      let room =
        earliest_start_room c.actor _ _ task.info.duration task.info.demand c.start_found in
      let late = max_ℤ-bounds (max_ℤ input.now (effective_release_time task input.state)) ready in
      let all = st.assignments ++ new_one ∷ [] in
      let grow = λ (P : Assignment → Type 0). Any-append_left P st.assignments (new_one ∷ []) in
      (
        λ dep t found. elim (Bool-cases (task.info.id == dep)) [
          | inl own ↦
              let value : best.candidate.finish_time ≡ t =
                some-injective best.candidate.finish_time t (
                  rw
                    (
                      lookup-assign task.info.id dep best.candidate.finish_time st.completion_times,
                      own,
                    )
                    at found) in
              inr (
                Any-append_right (Finishes m Done dep t) st.assignments (new_one ∷ []) (
                  inl
                    ((eq_iff task.info.id dep).0 own, task, ok.indexed, sym value ∙ c.finish_time)))
          | inr other ↦ IsFinish-map m Done st.assignments all grow dep t (
              explained dep t (
                rw
                  (
                    lookup-assign task.info.id dep best.candidate.finish_time st.completion_times,
                    other,
                  )
                  at found))
        ],
        All-append (Respects m Done all) st.assignments (new_one ∷ [])
            (All-mono (Respects m Done st.assignments) (Respects m Done all) st.assignments
              (λ a. Respects-map m Done st.assignments all grow a) respected)
            (
              (
                task,
                ok.indexed,
                All-mono (DoneBy st.completion_times ready)
                    (λ dep.
                      (t : Time) × IsFinish m Done all dep t × (t ≤ℤ best.candidate.start_time))
                    (dependencies task)
                    (λ dep (t, found, by). (
                      t,
                      IsFinish-map m Done st.assignments all grow dep t (explained dep t found),
                      omega (arith, by, late.1, room.0),
                    ))
                    (dependency_ready_time-DoneBy task st.completion_times waits),
              ),
              tt,
            ),
      )

module _ {D : Type 0} ⦃d : Doubles D⦄ (workflow : Workflow D) (state : WorkflowState)
    (registry : ActorRegistry D) (now : Time) (strategy : Option SchedulingStrategy)
    (profile : Option ActorRankingProfile) where
  abbrev pub pending_index : List (String × PendingTask D)
  pending_index = (planned_input workflow state registry now strategy profile).pending_by_id

  plan_end-IsOrdered :
      IsOrdered pending_index
        (IsDoneAt workflow state now)
        (plan_end workflow state registry now strategy profile)
  plan_end-IsOrdered =
      plan_end_inv workflow state registry now strategy profile
        (IsOrdered pending_index (IsDoneAt workflow state now)) (λ task st h. unfold drop_task in h)
        (λ task best st ok h.
          place-IsOrdered (planned_input workflow state registry now strategy profile)
            (IsDoneAt workflow state now) task best st ok h)
        (unfold plan_start in
          (λ dep t h. inl (initialize_completion_times-IsDoneAt workflow state now dep t h), tt))

  -- The task of each assignment of Scheduler::plan is pending, and each task that it waits for is
  -- assigned in the same plan, and over when the assignment starts; or is in flight, and its
  -- planned end, or where it has none, now and its duration, is not after the start; or is not in
  -- flight but completed, and its actual end, or else its planned one, or else now, is not after
  -- the start. A planned end counts also where it is before now.
  pub plan-Respects :
      let assignments = (plan workflow state registry now strategy profile).assignments in
      All (Respects pending_index (IsDoneAt workflow state now) assignments) assignments
  plan-Respects =
      let all = (plan_end workflow state registry now strategy profile).assignments in
      elim (plan-assignments workflow state registry now strategy profile) [
        | inl e ↦ rw e tt
        | inr e ↦ rw e (
            All-sort_by assignment_before _ all (
              All-mono (Respects pending_index (IsDoneAt workflow state now) all)
                (Respects pending_index (IsDoneAt workflow state now)
                  (sort_by assignment_before all))
                all
                (λ a.
                  Respects-map pending_index (IsDoneAt workflow state now) all
                    (sort_by assignment_before all) (λ P. Any-sort_by assignment_before P all) a)
                plan_end-IsOrdered.1))
      ]
