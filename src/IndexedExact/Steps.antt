-- ===== src/IndexedExact/Steps.antt =====
-- The choices that `dfs` of indexed_exact_backend.cpp makes, as steps between search states, and
-- that each step decides one more task.
use task_orchestrator.Base.{
  ℕ, zero, suc, ◌+◌, ◌≤◌, ◌<◌, ◌≡◌, sym, subst, ◌==◌, Bool, true, false, not, ◌||◌, List, [], ◌∷◌,
  String, contains, keep_if, length, All, All-sort_by, Any, In, All-In, arith, inl, inr, Bool-cases,
  contains-add_id, length-add_id, length-keep_if_strict, eq_refl, add_id, if_holds,
}
use task_orchestrator.Data.{Doubles}
use task_orchestrator.ConstraintIndex.{OptimizerTask, OptimizationModel, ConstraintIndex}
use task_orchestrator.IndexedExact.State.{
  SearchState, is_decided, is_blocked, drop_round, drop_rounds, drop_descendants_if_blocked,
}
use task_orchestrator.IndexedExact.Candidates.{
  Candidate, is_ready, ready_before, collect_ready, ready_tasks, candidates_for_task,
}
use task_orchestrator.IndexedExact.Solve.{assign_task, drop_task}

module _ {D : Type 0} where
  -- Every one of the ready tasks is a task of the model, and is ready.
  abbrev pub IsReadyOf : OptimizationModel D → SearchState → OptimizerTask D → Type 0
  IsReadyOf model s t = In t model.tasks × (is_ready s t ≡ true)

  collect_ready-All :
      (P : OptimizerTask D → Type 0) (s : SearchState) (tasks : List (OptimizerTask D))
      → All P tasks
      → All (λ t. P t × (is_ready s t ≡ true)) (collect_ready s tasks)
  unfolding collect_ready
  collect_ready-All P s [] a = tt
  collect_ready-All P s (t ∷ tasks) a = elim (Bool-cases (is_ready s t)) [
    | inl e ↦ rw e ((a.0, e), collect_ready-All P s tasks a.1)
    | inr e ↦ rw e (collect_ready-All P s tasks a.1)
  ]

  pub ready_tasks-All :
      (model : OptimizationModel D) (s : SearchState)
      → All (IsReadyOf model s) (ready_tasks model s)
  unfolding ready_tasks
  ready_tasks-All model s =
      All-sort_by ready_before (IsReadyOf model s) (collect_ready s model.tasks)
        (collect_ready-All (λ t. In t model.tasks) s model.tasks (All-In model.tasks))

  pub ready-undecided :
      (s : SearchState) (t : OptimizerTask D) → is_ready s t ≡ true → is_decided s t ≡ false
  unfolding is_ready
  ready-undecided s t h = ground arith

  -- How many of the tasks are neither scheduled nor dropped.
  abbrev pub undecided : List (OptimizerTask D) → SearchState → ℕ
  undecided tasks s = length (keep_if (λ t. not (is_decided s t)) tasks)

module _ {D : Type 0} (doubles : Doubles D) (model : OptimizationModel D)
    (index : ConstraintIndex D) where
  -- A node's choice: a task that is not decided is dropped, or a ready one goes to a candidate.
  pub data Step (s : SearchState) : SearchState → Type 0 where
    drops :
        (t : OptimizerTask D) → In t model.tasks → is_decided s t ≡ false → Step s (drop_task t s)
    takes :
        (t : OptimizerTask D) (c : Candidate D)
        → In t model.tasks
        → is_ready s t ≡ true
        → In c (candidates_for_task doubles t s index)
        → Step s (assign_task t s c)

  pub data Reach (s : SearchState) : SearchState → Type 0 where
    here : Reach s s
    next : {t u : SearchState} → Reach s t → Step t u → Reach s u

  pub Reach-trans : {s t u : SearchState} → Reach s t → Reach t u → Reach s u
  Reach-trans p here = p
  Reach-trans p (next q st) = next (Reach-trans p q) st

  -- No more scheduled and dropped tasks than decided ones.
  abbrev pub IsCounted : SearchState → Type 0
  IsCounted s = length s.scheduled + length s.dropped + undecided model.tasks s ≤ length model.tasks

  decides :
      (t : OptimizerTask D) (s s' : SearchState)
      → In t model.tasks
      → is_decided s t ≡ false
      → ((id : String)
          → (contains id s'.scheduled || contains id s'.dropped)
            ≡ (contains id s.scheduled || contains id s.dropped || t.id == id))
      → undecided model.tasks s' < undecided model.tasks s
  decides t s s' m h e =
      length-keep_if_strict (λ x. not (is_decided s x)) (λ x. not (is_decided s' x))
        (λ x k. ground (arith, e x.id)) model.tasks (is_new model.tasks m)
    where
      is_new :
          (xs : List (OptimizerTask D))
          → In t xs
          → Any (λ x. (not (is_decided s x) ≡ true) × (not (is_decided s' x) ≡ false)) xs
      is_new [] m = absurd m
      is_new (x ∷ xs) (inl k) = inl (
          subst (λ y. (not (is_decided s y) ≡ true) × (not (is_decided s' y) ≡ false)) (sym k)
            (ground (arith, h), ground (arith, e t.id, eq_refl t.id)))
      is_new (x ∷ xs) (inr k) = inr (is_new xs k)

  pub Step-undecided :
      {s s' : SearchState} → Step s s' → undecided model.tasks s' < undecided model.tasks s
  unfolding drop_task assign_task
  Step-undecided {s} (drops t m h) =
      decides t s (drop_task t s) m h (λ id. ground (arith, contains-add_id t.id id s.dropped))
  Step-undecided {s} (takes t c m r k) =
      decides t s (assign_task t s c) m (ready-undecided s t r)
        (λ id. ground (arith, contains-add_id t.id id s.scheduled))

  pub Step-IsCounted : {s s' : SearchState} → Step s s' → IsCounted s → IsCounted s'
  unfolding drop_task assign_task
  Step-IsCounted {s} (drops t m h) k =
      let st : Step s (drop_task t s) = drops t m h in
      omega (arith, Step-undecided st, length-add_id t.id s.dropped)
  Step-IsCounted {s} (takes t c m r e) k =
      let st : Step s (assign_task t s c) = takes t c m r e in
      omega (arith, Step-undecided st, length-add_id t.id s.scheduled)

  pub Reach-IsCounted : {s s' : SearchState} → Reach s s' → IsCounted s → IsCounted s'
  Reach-IsCounted here k = k
  Reach-IsCounted (next r st) k = Step-IsCounted st (Reach-IsCounted r k)

  pub Reach-undecided :
      {s s' : SearchState} → Reach s s' → undecided model.tasks s' ≤ undecided model.tasks s
  Reach-undecided here = omega arith
  Reach-undecided (next r st) = omega (arith, Reach-undecided r, Step-undecided st)

  pub blocked-Step :
      (t : OptimizerTask D) (s : SearchState)
      → In t model.tasks
      → is_blocked s t ≡ true
      → Step s (record s { dropped = add_id t.id s.dropped })
  unfolding drop_task is_blocked
  blocked-Step t s m e = drops t m (ground arith)

  pub drop_round-Reach :
      (tasks : List (OptimizerTask D)) (s : SearchState) (changed : Bool)
      → All (λ t. In t model.tasks) tasks
      → Reach s (drop_round tasks s changed).0
  unfolding drop_round
  drop_round-Reach [] s changed a = here
  drop_round-Reach (t ∷ tasks) s changed a = elim (Bool-cases (is_blocked s t)) [
    | inl e ↦
        rw (e, drop_round)
          (Reach-trans (next here (blocked-Step t s a.0 e))
            (drop_round-Reach tasks (record s { dropped = add_id t.id s.dropped }) true a.1))
    | inr e ↦ rw (e, drop_round) (drop_round-Reach tasks s changed a.1)
  ]

  drop_rounds-Reach : (n : ℕ) (s : SearchState) → Reach s (drop_rounds n model.tasks s)
  unfolding drop_rounds
  drop_rounds-Reach zero s = here
  drop_rounds-Reach (suc n) s =
      let r = drop_round model.tasks s false in
      let first = drop_round-Reach model.tasks s false (All-In model.tasks) in
      if_holds (Reach s) r.1 (Reach-trans first (drop_rounds-Reach n r.0)) first

  pub drop_descendants-Reach : (s : SearchState) → Reach s (drop_descendants_if_blocked model s)
  unfolding drop_descendants_if_blocked
  drop_descendants-Reach s = drop_rounds-Reach (suc (length model.tasks)) s
