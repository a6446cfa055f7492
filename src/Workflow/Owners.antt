-- ===== src/Workflow/Owners.antt =====
-- Which process workflow.cpp finds for a task.
use task_orchestrator.Base.{
  ◌≡◌, refl, ◌∙◌, inl, inr, String, true, false, List, [], ◌∷◌, ◌++◌, some, subst, contains,
  contains-append, lookup, All, All-lookup, All-assign, is_some, Option-cases, Bool-cases, eq_iff,
  eq_refl, ◌==◌, arith,
}
use mathlib.Core.Option.{some-injective}
use task_orchestrator.Data.{Process, task_ids}
use task_orchestrator.Workflow.{
  Workflow, add_process, process, owner_of, process_for_task, task_ids_of, task_ids_for_phase,
}

module _ {D : Type 0} where
  -- Each process stands under its own id.
  abbrev pub IsKeyed : List (String × Process D) → Type 0
  IsKeyed = All (λ kv. kv.0 ≡ kv.1.id)

  pub add_process-IsKeyed :
      (w : Workflow D) (p : Process D) → IsKeyed w.processes → IsKeyed (add_process w p).processes
  unfolding add_process
  add_process-IsKeyed w p h = All-assign (λ kv. kv.0 ≡ kv.1.id) p.id p w.processes refl h

  sub-task_ids :
      (t : String) (p : Process D)
      → contains t p.sub_process_ids ≡ true
      → contains t (task_ids p) ≡ true
  unfolding task_ids contains
  sub-task_ids t p h = ground arith

  own-task_ids : (p : Process D) → contains p.id (task_ids p) ≡ true
  unfolding task_ids contains
  own-task_ids p = rw (eq_refl p.id)

  owner_of-task_ids :
      (t : String) (m : List (String × Process D)) {p : Process D}
      → owner_of t m ≡ some p
      → contains t (task_ids p) ≡ true
  unfolding owner_of
  owner_of-task_ids t [] h = cc
  owner_of-task_ids t ((k, q) ∷ m) {p} h = elim (Bool-cases (contains t q.sub_process_ids)) [
    | inl e ↦
        subst (λ r. contains t (task_ids r) ≡ true) (some-injective q p (rw e at h))
          (sub-task_ids t q e)
    | inr e ↦ owner_of-task_ids t m (rw e at h)
  ]

  -- The process that process_for_task finds for a task has the task among its tasks, where each
  -- process stands under its own id.
  pub process_for_task-task_ids :
      (w : Workflow D) (t : String) {p : Process D}
      → IsKeyed w.processes
      → process_for_task w t ≡ some p
      → contains t (task_ids p) ≡ true
  unfolding process_for_task process
  process_for_task-task_ids w t {p} keyed h = elim (Option-cases (lookup t w.processes)) [
    | inl e ↦ owner_of-task_ids t w.processes (rw (e, process_for_task) at h)
    | inr (q, e) ↦
        subst (λ r. contains t (task_ids r) ≡ true)
          (some-injective q p (rw (e, process_for_task) at h))
          (rw (All-lookup (λ kv. kv.0 ≡ kv.1.id) t w.processes keyed e) (own-task_ids q))
  ]

  owner_of_found :
      (t k : String) (m : List (String × Process D)) {p : Process D}
      → lookup k m ≡ some p
      → contains t p.sub_process_ids ≡ true
      → is_some (owner_of t m) ≡ true
  unfolding owner_of lookup
  owner_of_found t k [] h s = cc
  owner_of_found t k ((j, q) ∷ m) {p} h s = elim (Bool-cases (j == k)) [
    | inl e ↦ let same : q ≡ p = some-injective q p (rw e at h) in rw same (rw s refl)
    | inr e ↦ ground (arith, owner_of_found t k m (rw e at h) s)
  ]

  -- A task of a process of the workflow is found an owner.
  process_for_task_found :
      (w : Workflow D) (k t : String) {p : Process D}
      → IsKeyed w.processes
      → lookup k w.processes ≡ some p
      → contains t (task_ids p) ≡ true
      → is_some (process_for_task w t) ≡ true
  unfolding process_for_task process task_ids contains
  process_for_task_found w k t {p} keyed found has = elim (Bool-cases (p.id == t)) [
    | inl own ↦
        let key : k ≡ t =
          All-lookup (λ kv. kv.0 ≡ kv.1.id) k w.processes keyed found ∙ (eq_iff p.id t).0 own in
        let hit : lookup t w.processes ≡ some p = rw key at found in rw (hit, process_for_task)
    | inr sub ↦ elim (Option-cases (lookup t w.processes)) [
      | inl e ↦ rw (e, process_for_task) (owner_of_found t k w.processes found (rw sub at has))
      | inr (q, e) ↦ rw (e, process_for_task)
    ]
  ]

  task_ids_of-owned :
      (w : Workflow D) (t : String) (pids : List String)
      → IsKeyed w.processes
      → contains t (task_ids_of w.processes pids) ≡ true
      → is_some (process_for_task w t) ≡ true
  unfolding task_ids_of contains
  task_ids_of-owned w t [] keyed has = cc
  task_ids_of-owned w t (pid ∷ pids) keyed has = elim (Option-cases (lookup pid w.processes)) [
    | inl e ↦ task_ids_of-owned w t pids keyed (rw (e, task_ids_of) at has)
    | inr (p, e) ↦ elim (Bool-cases (contains t (task_ids p))) [
      | inl own ↦ process_for_task_found w pid t keyed e own
      | inr other ↦
          task_ids_of-owned w t pids keyed (
            rest_has (task_ids p) (task_ids_of w.processes pids) other (rw (e, task_ids_of) at has))
    ]
  ]
    where
      rest_has :
          (xs ys : List String)
          → contains t xs ≡ false
          → contains t (xs ++ ys) ≡ true
          → contains t ys ≡ true
      rest_has xs ys no_ h = rw (contains-append t xs ys, no_) at h

  -- No task of a phase is without a process, where each process stands under its own id.
  pub task_ids_for_phase-owned :
      (w : Workflow D) (phase_id t : String)
      → IsKeyed w.processes
      → contains t (task_ids_for_phase w phase_id) ≡ true
      → is_some (process_for_task w t) ≡ true
  unfolding task_ids_for_phase contains
  task_ids_for_phase-owned w phase_id t keyed has = elim (Option-cases (lookup phase_id w.phases)) [
    | inl e ↦ absurd (no_tasks (rw (e, task_ids_for_phase) at has))
    | inr (ph, e) ↦ task_ids_of-owned w t ph.process_ids keyed (rw (e, task_ids_for_phase) at has)
  ]
    where
      no_tasks : false ≡ true → ⊥
      no_tasks h = cc
