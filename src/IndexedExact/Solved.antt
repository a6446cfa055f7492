-- ===== src/IndexedExact/Solved.antt =====
-- What `IndexedBranchAndBoundBackend::solve` of indexed_exact_backend.cpp returns.
use mathlib.Core.Option.{some-injective}
use task_orchestrator.Base.{
  ℕ, zero, suc, ◌≡◌, refl, sym, subst, ◌∙◌, true, false, not, List, [], map, length, length-keep_if,
  some, All, ◌⊎◌, inl, inr, arith, Bool-cases, >>=-some,
}
use task_orchestrator.Data.{Doubles}
use task_orchestrator.ConstraintIndex.{OptimizerTask, OptimizationModel, ConstraintIndex}
use task_orchestrator.Optimizer.Types.{
  OptimizationOptions, OptimizedAssignment, OptimizationSolution,
}
use task_orchestrator.IndexedExact.State.{
  SearchState, SearchAssignment, score_for, is_decided, drop_descendants_if_blocked,
}
use task_orchestrator.IndexedExact.Solve.{
  Incumbent, unfulfilled, dfs, count_node, root, solve, no_incumbent, conclude,
}
use task_orchestrator.IndexedExact.Steps.{
  Reach, Reach-trans, IsCounted, Reach-undecided, Reach-IsCounted, drop_descendants-Reach,
}
use task_orchestrator.IndexedExact.Scores.{AtMost, IsBounded}
use task_orchestrator.IndexedExact.Outcomes.{
  Outcome, Outcome-Reach, closed, Covers, Covers-same, Covers-then, Covers-iff,
}
use task_orchestrator.IndexedExact.Booked.{plan_of}
use task_orchestrator.IndexedExact.Optimal.{Finds, visit-Reaches}

module _ {D : Type 0} (doubles : Doubles D) (model : OptimizationModel D)
    (index : ConstraintIndex D) (options : OptimizationOptions D) where
  -- The choices of the search that starts with nothing scheduled or dropped.
  abbrev pub Choice : SearchState → Type 0
  Choice l = Outcome doubles model index options (closed doubles model index options (root model)) l

  -- The solution is that of the choice, and no choice has a better score.
  pub record IsBest (solution : OptimizationSolution) (l : SearchState) : Type 0 where
    pub made : Choice l
    pub fine : solution.ok ≡ true
    pub assigned : solution.assignments ≡ map SearchAssignment.assignment l.assignments
    pub left_out : solution.unfulfilled_task_ids ≡ unfulfilled model l
    pub best : (l' : SearchState) → Choice l' → AtMost (score_for l' options) (score_for l options)

  -- A best choice, or, if there is no choice at all, a failure.
  abbrev pub Verdict : OptimizationSolution → Type 0
  Verdict solution =
      ((l : SearchState) × IsBest solution l)
      ⊎ ((solution.ok ≡ false) × ((l : SearchState) → ¬ Choice l))

  pub root-IsCounted : IsCounted doubles model index (root model)
  unfolding root
  root-IsCounted =
      omega (
        arith,
        length-keep_if (λ (t : OptimizerTask D). not (is_decided (root model) t)) model.tasks,
      )

  dfs-Finds : (n : ℕ) → Finds doubles model index options n (dfs n doubles model index options)
  unfolding dfs
  dfs-Finds zero s b few k = absurd (omega arith)
  dfs-Finds (suc n) s b few k =
      let s' = drop_descendants_if_blocked model s in
      let r = drop_descendants-Reach doubles model index s in
      let counted : Incumbent = record b { best = count_node b.best } in
      let (b1, e1, c1) =
        visit-Reaches doubles model index options n (dfs n doubles model index options)
          (dfs-Finds n) s' (omega (arith, Reach-undecided doubles model index r))
          (Reach-IsCounted doubles model index r k) counted in
      (
        b1,
        e1,
        Covers-iff doubles model index options (λ l x. elim x [ inl y ↦ absurd y | inr y ↦ y ])
            (λ l x. inr x)
            (Covers-then doubles model index options
              (Covers-same doubles model index options (λ l. ⊥) {b' = counted}
                (record {
                  found = refl;
                  assigned = refl;
                  left_out = refl;
                  scored = refl;
                  fine = refl;
                })
                (λ g l x. absurd x))
              c1),
      )

  solve-Covers :
      (b : Incumbent) × (solve doubles model index options ≡ some (conclude b))
      × Covers doubles model index options Choice no_incumbent b
  unfolding solve
  solve-Covers =
      let (b, e, c) =
        dfs-Finds (suc (length model.tasks)) (root model) no_incumbent
          (omega (arith, root-IsCounted)) root-IsCounted in
      (b, >>=-some _ (λ x. some (conclude x)) e refl, c)

  conclude-Verdict :
      (b : Incumbent)
      → Covers doubles model index options Choice no_incumbent b
      → All (IsBounded doubles model index options) model.tasks
      → Verdict (conclude b)
  conclude-Verdict b c bounded = elim (Bool-cases b.have_best) [
    | inl e ↦ elim c.from [
      | inl same ↦ absurd (ground (arith, same.found, e))
      | inr (l, o, s) ↦ rw e (
          inl (
            l,
            record {
              made = o;
              fine = c.fine;
              assigned = s.assigned;
              left_out = s.left_out;
              best = λ l' o'. rw (← s.scored) (c.beats bounded l' o').1;
            },
          ))
    ]
    | inr e ↦ rw e (inr (refl, λ l o. ground (arith, (c.beats bounded l o).0, e)))
  ]

  -- Where no task's priority times the weight of priorities is above the bound of the search,
  -- IndexedBranchAndBoundBackend::solve returns, with all its pruning: either the assignments and
  -- the unfulfilled tasks of one complete choice, than which no complete choice of the unpruned
  -- search has a better score, or, exactly where there is no complete choice, a failure.
  pub solve-Verdict :
      All (IsBounded doubles model index options) model.tasks
      → (solution : OptimizationSolution) × (solve doubles model index options ≡ some solution)
        × Verdict solution
  solve-Verdict bounded =
      let (b, e, c) = solve-Covers in (conclude b, e, conclude-Verdict b c bounded)

  conclude-made :
      (b : Incumbent)
      → Covers doubles model index options Choice no_incumbent b
      → ((conclude b).assignments ≡ [])
        ⊎ ((l : SearchState) × Choice l × ((conclude b).assignments ≡ plan_of l))
  conclude-made b c = elim c.from [
    | inl same ↦ inl (rw same.found same.assigned)
    | inr (l, o, s) ↦ inr (l, o, rw s.found s.assigned)
  ]

  -- Whatever solution is returned, its assignments are none, or those of a choice.
  pub solve-made :
      {solution : OptimizationSolution}
      → solve doubles model index options ≡ some solution
      → (solution.assignments ≡ [])
        ⊎ ((l : SearchState) × Choice l × (solution.assignments ≡ plan_of l))
  solve-made {solution} h =
      let (b, e, c) = solve-Covers in
      let same : conclude b ≡ solution = some-injective (conclude b) solution (sym e ∙ h) in
      subst
        (λ x. (x.assignments ≡ []) ⊎ ((l : SearchState) × Choice l × (x.assignments ≡ plan_of l)))
        same (conclude-made b c)

  -- What holds of the plan of every state that the search can reach holds of the solution's.
  pub solve-plan :
      (P : List OptimizedAssignment → Type 0)
      → P []
      → ((l : SearchState) → Reach doubles model index (root model) l → P (plan_of l))
      → {solution : OptimizationSolution} → solve doubles model index options ≡ some solution
      → P solution.assignments
  solve-plan P none_ reached h = elim (solve-made h) [
    | inl e ↦ subst P (sym e) none_
    | inr (l, o, e) ↦ subst P (sym e) (
        reached l (
          Reach-trans doubles model index (drop_descendants-Reach doubles model index (root model))
            (Outcome-Reach doubles model index options o)))
  ]
