-- ===== src/IndexedExact/Optimal.antt =====
-- The search of indexed_exact_backend.cpp, with its pruning, ends with the best of all choices.
use task_orchestrator.Base.{
  ℕ, ◌≤◌, ◌<◌, ◌≡◌, refl, true, List, [], ◌∷◌, Option, some, In, All, All-In, inl, inr, arith,
  Bool-cases, List-cases, >>=-some,
}
use task_orchestrator.Data.{Doubles}
use task_orchestrator.ConstraintIndex.{OptimizerTask, OptimizationModel, ConstraintIndex}
use task_orchestrator.Optimizer.Types.{OptimizationOptions}
use task_orchestrator.IndexedExact.State.{SearchState, score_for}
use task_orchestrator.IndexedExact.Candidates.{Candidate, ready_tasks, candidates_for_task}
use task_orchestrator.IndexedExact.Solve.{
  Incumbent, offer, try_candidates, try_without, branch, visit, is_pruned, optimistic, count_pruned,
}
use task_orchestrator.IndexedExact.Steps.{
  Step, drops, takes, undecided, IsCounted, Step-undecided, Step-IsCounted, ready-undecided,
  IsReadyOf,
}
use task_orchestrator.IndexedExact.Scores.{AtMost, better_score_trans, Reach-optimistic}
use task_orchestrator.IndexedExact.Outcomes.{
  Outcome, stop, Outcome-Reach, may_drop, closed, first_ready, Covers, Taken, Branched, only_stop,
  goes_on, comes_from, Covers-same, Covers-then, Covers-iff, offer-Covers,
}

module _ {D : Type 0} (doubles : Doubles D) (model : OptimizationModel D)
    (index : ConstraintIndex D) (options : OptimizationOptions D) where
  abbrev pub Reaches : (SearchState → Type 0) → Option Incumbent → Incumbent → Type 0
  Reaches L result b =
      (b' : Incumbent) × (result ≡ some b') × Covers doubles model index options L b b'

  -- A search that returns, from states with fewer than `m` tasks to decide.
  abbrev pub Finds : ℕ → (SearchState → Incumbent → Option Incumbent) → Type 0
  Finds m recur =
      (s : SearchState) (b : Incumbent)
      → undecided model.tasks s < m
      → IsCounted doubles model index s
      → Reaches (Outcome doubles model index options (closed doubles model index options s))
          (recur s b) b

  module _ (m : ℕ) (recur : SearchState → Incumbent → Option Incumbent) (finds : Finds m recur)
      (s : SearchState) (few : undecided model.tasks s ≤ m)
      (counted : IsCounted doubles model index s) where
    after :
        {s' : SearchState} (b : Incumbent)
        → Step doubles model index s s'
        → Reaches
            (Outcome doubles model index options (closed doubles model index options s'))
            (recur s' b)
            b
    after {s'} b st =
        finds s' b (omega (arith, Step-undecided doubles model index st))
          (Step-IsCounted doubles model index st counted)

    module _ (t : OptimizerTask D) (ready : IsReadyOf model s t) where
      abbrev Tried : List (Candidate D) → SearchState → Type 0
      Tried cs l = Taken doubles model index options s t l cs

      try_candidates-Reaches :
          (cs : List (Candidate D)) (b : Incumbent)
          → All (λ c. In c (candidates_for_task doubles t s index)) cs
          → Reaches (Tried cs) (try_candidates recur t s cs b) b
      unfolding try_candidates
      try_candidates-Reaches [] b a = (
        b,
        refl,
        Covers-same doubles model index options (Tried [])
            (record { found = refl; assigned = refl; left_out = refl; scored = refl; fine = refl })
            (λ g l m. absurd m),
      )
      try_candidates-Reaches (c ∷ cs) b a =
          let (b1, e1, c1) = after b (takes t c ready.0 ready.1 a.0) in
          let (b2, e2, c2) = try_candidates-Reaches cs b1 a.1 in
          (
            b2,
            >>=-some _ (λ x. try_candidates recur t s cs x) e1 e2,
            Covers-then doubles model index options c1 c2,
          )

      branch-Reaches :
          (b : Incumbent)
          → Reaches
              (Branched doubles model index options s t)
              (branch doubles index options recur t s b)
              b
      unfolding branch try_without
      branch-Reaches b =
          let cs = candidates_for_task doubles t s index in
          let (b1, e1, c1) = try_candidates-Reaches cs b (All-In cs) in
          elim (Bool-cases (may_drop doubles model index options t)) [
            | inl e ↦
                let (b2, e2, c2) = after b1 (drops t ready.0 (ready-undecided s t ready.1)) in
                (
                  b2,
                  >>=-some _ (λ x. try_without options recur t s x) e1 (rw e e2),
                  Covers-iff doubles model index options
                      (λ l x. elim x [ inl y ↦ inl y | inr y ↦ inr (e, y) ])
                      (λ l x. elim x [ inl y ↦ inl y | inr y ↦ inr y.1 ])
                      (Covers-then doubles model index options c1 c2),
                )
            | inr e ↦ (
              b1,
              >>=-some _ (λ x. try_without options recur t s x) e1 (rw e refl),
              Covers-iff doubles model index options (λ l x. inl x)
                  (λ l x. elim x [ inl y ↦ y | inr y ↦ absurd (ground (arith, e, y.0)) ]) c1,
            )
          ]

    -- A node that is pruned has no choice below it that is better than the best so far.
    pruned-Covers :
        (b : Incumbent)
        → is_pruned model s (score_for s options) b ≡ true
        → Covers doubles model index options
            (Outcome doubles model index options s)
            b
            (record b { best = count_pruned b.best })
    unfolding is_pruned
    pruned-Covers b e =
        Covers-same doubles model index options (Outcome doubles model index options s)
          (record { found = refl; assigned = refl; left_out = refl; scored = refl; fine = refl })
          (λ bounded l o.
            let r = Outcome-Reach doubles model index options o in
            let below = Reach-optimistic doubles model index options bounded r counted in
            let best = optimistic model s (score_for s options) in
            let worse : AtMost best b.best_score = ground (arith, e) in
            (
              ground (arith, e),
              better_score_trans (score_for l options) best b.best_score below worse,
            ))

    pub visit-Reaches :
        (b : Incumbent)
        → Reaches
            (Outcome doubles model index options s)
            (visit doubles model index options recur s b)
            b
    unfolding visit
    visit-Reaches b = elim (Bool-cases (is_pruned model s (score_for s options) b)) [
      | inl e ↦ (record b { best = count_pruned b.best }, rw e refl, pruned-Covers b e)
      | inr e ↦ elim (List-cases (ready_tasks model s)) [
        | inl none_ready ↦ (
          offer model s (score_for s options) b,
          rw (e, none_ready) refl,
          Covers-iff doubles model index options (λ l same. stop none_ready same)
              (λ l o. only_stop doubles model index options none_ready o)
              (offer-Covers doubles model index options s b),
        )
        | inr (t, ts, is_first) ↦
            let ready = first_ready doubles model index options s t ts is_first in
            let (b1, e1, c1) = branch-Reaches t ready b in
            (
              b1,
              rw (e, is_first) e1,
              Covers-iff doubles model index options
                  (λ l x. goes_on doubles model index options t ts is_first x)
                  (λ l o. comes_from doubles model index options t ts is_first o) c1,
            )
      ]
    ]
