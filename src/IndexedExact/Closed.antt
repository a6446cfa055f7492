-- ===== src/IndexedExact/Closed.antt =====
-- `drop_descendants_if_blocked` of indexed_exact_backend.cpp goes on until nothing is blocked.
use task_orchestrator.Base.{
  ℕ, zero, suc, ◌<◌, ◌≡◌, refl, sym, subst, true, false, List, [], ◌∷◌, length, length-keep_if, not,
  All, In, All-In, inl, inr, arith, Bool-cases, add_id,
}
use task_orchestrator.Data.{Doubles}
use task_orchestrator.ConstraintIndex.{OptimizerTask, OptimizationModel, ConstraintIndex}
use task_orchestrator.IndexedExact.State.{
  SearchState, is_decided, is_blocked, drop_round, drop_rounds, drop_descendants_if_blocked,
}
use task_orchestrator.IndexedExact.Steps.{
  undecided, blocked-Step, drop_round-Reach, Step-undecided, Reach-undecided,
}

module _ {D : Type 0} (doubles : Doubles D) (model : OptimizationModel D)
    (index : ConstraintIndex D) where
  abbrev open_in : SearchState → ℕ
  open_in s = undecided model.tasks s

  -- No task of the list is blocked.
  abbrev pub IsClosed : List (OptimizerTask D) → SearchState → Type 0
  IsClosed tasks s = All (λ t. is_blocked s t ≡ false) tasks

  changed_stays :
      (tasks : List (OptimizerTask D)) (s : SearchState) → (drop_round tasks s true).1 ≡ true
  unfolding drop_round
  changed_stays [] s = refl
  changed_stays (t ∷ tasks) s = elim (Bool-cases (is_blocked s t)) [
    | inl e ↦
        rw (e, drop_round) (changed_stays tasks (record s { dropped = add_id t.id s.dropped }))
    | inr e ↦ rw (e, drop_round) (changed_stays tasks s)
  ]

  -- A round that changes nothing leaves the state, in which nothing is blocked.
  unchanged :
      (tasks : List (OptimizerTask D)) (s : SearchState)
      → (drop_round tasks s false).1 ≡ false
      → ((drop_round tasks s false).0 ≡ s) × IsClosed tasks s
  unfolding drop_round
  unchanged [] s h = (refl, tt)
  unchanged (t ∷ tasks) s h = elim (Bool-cases (is_blocked s t)) [
    | inl e ↦
        let rest = changed_stays tasks (record s { dropped = add_id t.id s.dropped }) in
        let h' : (drop_round tasks (record s { dropped = add_id t.id s.dropped }) true).1 ≡ false =
          rw (e, drop_round) at h in
        absurd (ground (arith, rest, h'))
    | inr e ↦
        let later = unchanged tasks s (rw (e, drop_round) at h) in
        (rw (e, drop_round) later.0, (e, later.1))
  ]

  -- A round that changes something decides a task.
  changes :
      (tasks : List (OptimizerTask D)) (s : SearchState)
      → All (λ t. In t model.tasks) tasks
      → (drop_round tasks s false).1 ≡ true
      → open_in (drop_round tasks s false).0 < open_in s
  unfolding drop_round
  changes [] s a h = cc
  changes (t ∷ tasks) s a h = elim (Bool-cases (is_blocked s t)) [
    | inl e ↦
        let s' : SearchState = record s { dropped = add_id t.id s.dropped } in
        let first =
          Step-undecided doubles model index (blocked-Step doubles model index t s a.0 e) in
        let rest =
          Reach-undecided doubles model index
            (drop_round-Reach doubles model index tasks s' true a.1) in
        rw (e, drop_round) (omega (arith, first, rest))
    | inr e ↦ rw (e, drop_round) (changes tasks s a.1 (rw (e, drop_round) at h))
  ]

  drop_rounds-IsClosed :
      (n : ℕ) (s : SearchState) → open_in s < n → IsClosed model.tasks (drop_rounds n model.tasks s)
  unfolding drop_rounds
  drop_rounds-IsClosed zero s few = absurd (omega arith)
  drop_rounds-IsClosed (suc n) s few =
      let r = drop_round model.tasks s false in
      elim (Bool-cases r.1) [
        | inl e ↦ rw e (
            drop_rounds-IsClosed n r.0
              (omega (arith, changes model.tasks s (All-In model.tasks) e)))
        | inr e ↦
            let still = unchanged model.tasks s e in
            rw e (subst (IsClosed model.tasks) (sym still.0) still.1)
      ]

  -- The loop of drop_descendants_if_blocked ends, within one round more than there are tasks, in a
  -- state in which no undecided task of the model depends on a dropped one.
  pub drop_descendants_if_blocked-IsClosed :
      (s : SearchState) → IsClosed model.tasks (drop_descendants_if_blocked model s)
  unfolding drop_descendants_if_blocked
  drop_descendants_if_blocked-IsClosed s =
      drop_rounds-IsClosed (suc (length model.tasks)) s
        (omega (arith, length-keep_if (λ (t : OptimizerTask D). not (is_decided s t)) model.tasks))
