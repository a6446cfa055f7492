-- ===== src/Scheduler/Pending.antt =====
-- `Scheduler::plan` assigns only tasks of ready phases that are still to do.
use task_orchestrator.Base.{
  arith, eq_iff, not, ◌&&◌, ◌∙◌, erase_value, contains-erase_value, ◌≡◌, refl, inl, inr, String,
  true, false, List, [], ◌∷◌, Option, some, lookup, All-mono, contains, emplace, ◌==◌, All,
  All-append, All-contained, All-lookup, Bool-cases, Option-cases,
}
use task_orchestrator.Data.{Phase, Process, task_ids, Time, Doubles}
use task_orchestrator.Workflow.{
  Workflow, phase, task_ids_of, ready_phases, task_ids_for_phase, process_for_task,
}
use task_orchestrator.Strategy.{SchedulingStrategy}
use task_orchestrator.Scheduler.Types.{
  ActorRankingProfile, WorkflowState, ActorRegistry, PendingTask, Assignment,
}
use task_orchestrator.Scheduler.Tables.{
  erase_all, is_settled, pending_task, pending_of_phase, pending_of_phases, collect_pending_tasks,
}
use task_orchestrator.Scheduler.Plan.{place, drop_task, plan_input, plan_start, plan}
use task_orchestrator.Scheduler.Order.{index_pending}
use task_orchestrator.Scheduler.Invariants.{plan_end_inv}
use task_orchestrator.Scheduler.Placement.{All-plan}

All-emplace {ℓ} :
    {V : Type ℓ} (P : String × V → Type 0) (k : String) (v : V) (m : List (String × V))
    → P (k, v)
    → All P m
    → All P (emplace k v m)
unfolding emplace
All-emplace P k v [] p h = (p, tt)
All-emplace P k v ((j, w) ∷ m) p h = elim (Bool-cases (j == k)) [
  | inl e ↦ rw e h
  | inr e ↦ rw e (h.0, All-emplace P k v m p h.1)
]

contains-erase_all :
    (x : String) (rs ids : List String)
    → contains x (erase_all rs ids) ≡ (contains x ids && not (contains x rs))
unfolding erase_all contains
contains-erase_all x [] ids = ground arith
contains-erase_all x (r ∷ rs) ids =
    contains-erase_all x rs (erase_value r ids)
    ∙ ground (arith, contains-erase_value r x ids, eq_iff r x)

-- The task is neither completed nor failed for good, nor in flight without being resumable.
abbrev pub IsOpen : WorkflowState → String → Type 0
IsOpen state t =
    (contains t state.completed_tasks ≡ false)
    × (contains t state.unresumable_tasks ≡ false)
    × ((contains t state.assigned_tasks && not (contains t state.resumable_tasks)) ≡ false)

is_settled-IsOpen :
    (state : WorkflowState) (t : String) → is_settled state t ≡ false → IsOpen state t
unfolding is_settled
is_settled-IsOpen state t h =
    let erased = contains-erase_all t state.resumable_tasks state.assigned_tasks in
    (ground (arith, h), ground (arith, h), ground (arith, h, erased))

module _ {D : Type 0} (workflow : Workflow D) (state : WorkflowState) where
  -- The task is one of a process that the phase lists.
  abbrev pub IsTaskOf : String → String → Type 0
  IsTaskOf phase_id task_id =
      (ph : Phase) × (lookup phase_id workflow.phases ≡ some ph)
      × (process_id : String) × (contains process_id ph.process_ids ≡ true)
      × (process : Process D) × (lookup process_id workflow.processes ≡ some process)
      × (contains task_id (task_ids process) ≡ true)

  -- The task is one of a ready phase, and is to be planned.
  abbrev pub IsToDo : PendingTask D → Type 0
  IsToDo task =
      IsOpen state task.info.id
      × (contains task.info.phase_id (ready_phases workflow state.completed_phases) ≡ true)
      × IsTaskOf task.info.phase_id task.info.id

  task_ids_of-IsTaskOf :
      (phase_id : String) (ph : Phase) (process_ids : List String)
      → lookup phase_id workflow.phases ≡ some ph
      → All (λ i. contains i ph.process_ids ≡ true) process_ids
      → All (IsTaskOf phase_id) (task_ids_of workflow.processes process_ids)
  unfolding task_ids_of
  task_ids_of-IsTaskOf phase_id ph [] found listed = tt
  task_ids_of-IsTaskOf phase_id ph (i ∷ is) found listed =
      let rest = task_ids_of-IsTaskOf phase_id ph is found listed.1 in
      elim (Option-cases (lookup i workflow.processes)) [
        | inl e ↦ rw (e, task_ids_of) rest
        | inr (process, e) ↦
            rw (e, task_ids_of)
              (All-append (IsTaskOf phase_id) (task_ids process) (task_ids_of workflow.processes is)
                (All-mono (λ t. contains t (task_ids process) ≡ true) (IsTaskOf phase_id)
                  (task_ids process) (λ t h. (ph, found, i, listed.0, process, e, h))
                  (All-contained (task_ids process)))
                rest)
      ]

  task_ids_for_phase-IsTaskOf :
      (phase_id : String) → All (IsTaskOf phase_id) (task_ids_for_phase workflow phase_id)
  unfolding task_ids_for_phase phase
  task_ids_for_phase-IsTaskOf phase_id = elim (Option-cases (lookup phase_id workflow.phases)) [
    | inl e ↦ rw (e, task_ids_for_phase) tt
    | inr (ph, e) ↦
        rw (e, task_ids_for_phase)
          (task_ids_of-IsTaskOf phase_id ph ph.process_ids e (All-contained ph.process_ids))
  ]

  pending_task-ids :
      (phase_id task_id : String)
      → ((pending_task workflow phase_id task_id).info.id ≡ task_id)
        × ((pending_task workflow phase_id task_id).info.phase_id ≡ phase_id)
  unfolding pending_task
  pending_task-ids phase_id task_id = elim (Option-cases (process_for_task workflow task_id)) [
    | inl e ↦ rw (e, pending_task) (refl, refl)
    | inr (process, e) ↦ rw (e, pending_task) (refl, refl)
  ]

  pending_of_phase-IsToDo :
      (phase_id : String) (ids : List String)
      → contains phase_id (ready_phases workflow state.completed_phases) ≡ true
      → All (IsTaskOf phase_id) ids
      → All IsToDo (pending_of_phase workflow state phase_id ids)
  unfolding pending_of_phase
  pending_of_phase-IsToDo phase_id [] ready listed = tt
  pending_of_phase-IsToDo phase_id (id ∷ ids) ready listed =
      let rest = pending_of_phase-IsToDo phase_id ids ready listed.1 in
      let (same_id, same_phase) = pending_task-ids phase_id id in
      elim (Bool-cases (is_settled state id)) [
        | inl e ↦ rw (e, pending_of_phase) rest
        | inr e ↦
            rw (e, pending_of_phase)
              (
                (
                  rw same_id (is_settled-IsOpen state id e),
                  rw same_phase ready,
                  rw (same_id, same_phase) (listed.0),
                ),
                rest,
              )
      ]

  pending_of_phases-IsToDo :
      (phases : List String)
      → All (λ p. contains p (ready_phases workflow state.completed_phases) ≡ true) phases
      → All IsToDo (pending_of_phases workflow state phases)
  unfolding pending_of_phases
  pending_of_phases-IsToDo [] ready = tt
  pending_of_phases-IsToDo (p ∷ phases) ready =
      All-append IsToDo (pending_of_phase workflow state p (task_ids_for_phase workflow p))
        (pending_of_phases workflow state phases)
        (pending_of_phase-IsToDo p (task_ids_for_phase workflow p) ready.0
          (task_ids_for_phase-IsTaskOf p))
        (pending_of_phases-IsToDo phases ready.1)

  index_pending-IsToDo :
      (tasks : List (PendingTask D)) (m : List (String × PendingTask D))
      → All IsToDo tasks
      → All (λ kv. IsToDo kv.1) m
      → All (λ kv. IsToDo kv.1) (index_pending tasks m)
  unfolding index_pending
  index_pending-IsToDo [] m h k = k
  index_pending-IsToDo (task ∷ tasks) m h k =
      index_pending-IsToDo tasks (emplace task.info.id task m) h.1
        (All-emplace (λ kv. IsToDo kv.1) task.info.id task m h.0 k)

  module _ ⦃d : Doubles D⦄ (registry : ActorRegistry D) (now : Time)
      (strategy : Option SchedulingStrategy) (profile : Option ActorRankingProfile) where
    plan_input-IsToDo :
        All
          (λ kv. IsToDo kv.1)
          (plan_input workflow state registry now strategy profile).pending_by_id
    unfolding plan_input collect_pending_tasks
    plan_input-IsToDo =
        index_pending-IsToDo (collect_pending_tasks workflow state) []
          (pending_of_phases-IsToDo (ready_phases workflow state.completed_phases)
            (All-contained (ready_phases workflow state.completed_phases)))
          tt

    -- The task that the assignment is of, by the index of pending tasks, is to do.
    abbrev pub AssignsToDo : Assignment → Type 0
    AssignsToDo a =
        (task : PendingTask D) × (lookup a.task_id
            (plan_input workflow state registry now strategy profile).pending_by_id
          ≡ some task)
        × (task.info.id ≡ a.task_id)
        × IsToDo task

    -- The task of each assignment of Scheduler::plan is in the index of pending tasks, as one of
    -- the tasks of a process that the phase given there lists; the phase is ready, and the task is
    -- neither completed, nor failed for good, nor in flight without being marked as resumable.
    pub plan-IsToDo :
        All AssignsToDo (plan workflow state registry now strategy profile).assignments
    plan-IsToDo = All-plan workflow state registry now strategy profile AssignsToDo (
        plan_end_inv workflow state registry now strategy profile
          (λ st. All AssignsToDo st.assignments) (λ task st h. unfold drop_task in h)
          (λ task best st ok h.
            unfold place in
            All-append AssignsToDo st.assignments _ h (
              (
                task,
                ok.indexed,
                refl,
                All-lookup (λ kv. IsToDo kv.1) task.info.id
                    (plan_input workflow state registry now strategy profile).pending_by_id
                    plan_input-IsToDo ok.indexed,
              ),
              tt,
            ))
          (unfold plan_start in tt))
