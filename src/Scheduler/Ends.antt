-- ===== src/Scheduler/Ends.antt =====
-- The `while` loop of `Scheduler::plan` ends within the fuel that it is given.
use mathlib.Core.Logic.{◌⊎◌}
use task_orchestrator.Base.{
  ℕ, zero, suc, ◌≤◌, ◌<◌, ◌≡◌, inl, inr, String, Bool, true, false, not, ◌==◌, List, [], ◌∷◌,
  is_some, contains, erase_value, length, length-keep_if, arith, Bool-cases,
}
use task_orchestrator.Data.{Doubles}
use task_orchestrator.Workflow.{is_empty}
use task_orchestrator.Scheduler.Types.{PendingTask}
use task_orchestrator.Scheduler.Plan.{PlanState, PlanInput, visit, visit_all, ready_now, plan_loop}

length-erase_value-le : (x : String) (ys : List String) → length (erase_value x ys) ≤ length ys
unfolding erase_value
length-erase_value-le x ys = length-keep_if (λ y. not (y == x)) ys

-- Erasing a value that is there leaves fewer.
length-erase_value-lt :
    (x : String) (ys : List String) → contains x ys ≡ true → length (erase_value x ys) < length ys
unfolding erase_value contains
length-erase_value-lt x [] h = cc
length-erase_value-lt x (y ∷ ys) h =
    ground (arith, length-keep_if (λ z. not (z == x)) ys, length-erase_value-lt x ys)

module _ {D : Type 0} ⦃d : Doubles D⦄ (input : PlanInput D) where
  abbrev left : PlanState × Bool → ℕ
  left s = length s.0.remaining_task_ids

  visit-le :
      (task : PendingTask D) (s : PlanState × Bool)
      → (left (visit input task s) ≤ left s)
        × ((visit input task s).1 ≡ true → (s.1 ≡ true) ⊎ (left (visit input task s) < left s))
  unfolding visit
  visit-le task (st, progress) = ground (
    arith,
    length-erase_value-le task.info.id st.remaining_task_ids,
    length-erase_value-lt task.info.id st.remaining_task_ids,
  )

  visit_all-le :
      (tasks : List (PendingTask D)) (s : PlanState × Bool)
      → (left (visit_all input tasks s) ≤ left s)
        × ((visit_all input tasks s).1 ≡ true
            → (s.1 ≡ true) ⊎ (left (visit_all input tasks s) < left s))
  unfolding visit_all
  visit_all-le [] s = (omega arith, λ h. inl h)
  visit_all-le (task ∷ tasks) (st, b) =
      let one = visit-le task (st, b) in
      let rest = visit_all-le tasks (visit input task (st, b)) in
      (
        omega (arith, one.0, rest.0),
        λ h. elim (rest.1 h) [
          | inl before ↦ elim (one.1 before) [
            | inl was ↦ inl was
            | inr fewer ↦ inr (omega (arith, rest.0))
          ]
          | inr fewer ↦ inr (omega (arith, one.0))
        ],
      )

  -- The loop of Scheduler::plan ends within as many rounds as there are tasks left, and one.
  pub plan_loop_total :
      (fuel : ℕ) (st : PlanState)
      → length st.remaining_task_ids < fuel
      → is_some (plan_loop input fuel st) ≡ true
  unfolding plan_loop
  plan_loop_total zero st h = absurd (omega arith)
  plan_loop_total (suc fuel) st h =
      let s = visit_all input (ready_now input st) (st, false) in
      elim (Bool-cases (is_empty st.remaining_task_ids)) [
        | inl e ↦ rw (e, plan_loop)
        | inr e1 ↦ elim (Bool-cases (is_empty (ready_now input st))) [
          | inl e ↦ rw (e1, plan_loop, e)
          | inr e2 ↦ elim (Bool-cases s.1) [
            | inl more ↦
                rw (e1, plan_loop, e2, more)
                  (plan_loop_total fuel s.0
                    (shorter ((visit_all-le (ready_now input st) (st, false)).1 more) h))
            | inr done ↦ rw (e1, plan_loop, e2, done)
          ]
        ]
      ]
    where
      shorter : {n m k : ℕ} → (false ≡ true) ⊎ (n < m) → m < suc k → n < k
      shorter (inl e) k = cc
      shorter (inr l) k = omega arith
