-- ===== src/IndexedExact/Outcomes.antt =====
-- The complete choices that the search of indexed_exact_backend.cpp ranges over, without its
-- pruning, and what an incumbent has to do with a set of them.
use task_orchestrator.Base.{
  ◌≡◌, refl, sym, subst, ◌∙◌, Bool, true, not, ◌||◌, List, [], ◌∷◌, map, In, ◌⊎◌, inl, inr, arith,
  if_cases, All, Any,
}
use task_orchestrator.Data.{Doubles}
use task_orchestrator.ConstraintIndex.{OptimizerTask, OptimizationModel, ConstraintIndex}
use task_orchestrator.Optimizer.Types.{OptimizationOptions}
use task_orchestrator.IndexedExact.State.{
  SearchState, SearchAssignment, score_for, better_score, drop_descendants_if_blocked,
}
use task_orchestrator.IndexedExact.Candidates.{Candidate, ready_tasks, candidates_for_task}
use task_orchestrator.IndexedExact.Solve.{Incumbent, assign_task, drop_task, unfulfilled, offer}
use task_orchestrator.IndexedExact.Steps.{
  Reach, here, next, drops, takes, Reach-trans, drop_descendants-Reach, ready_tasks-All, IsReadyOf,
  ready-undecided,
}
use task_orchestrator.IndexedExact.Scores.{
  IsBounded, AtMost, better_score_refl, better_score_asym, better_score_trans,
}

module _ {D : Type 0} (doubles : Doubles D) (model : OptimizationModel D)
    (index : ConstraintIndex D) (options : OptimizationOptions D) where
  abbrev pub closed : SearchState → SearchState
  closed s = drop_descendants_if_blocked model s

  -- The task may be left out.
  abbrev pub may_drop : OptimizerTask D → Bool
  may_drop t = options.allow_partial_plan || not t.mandatory

  -- Where no task is ready the choice is complete; else the first ready task goes to one of its
  -- candidates, or is left out if that is allowed.
  pub data Outcome : SearchState → SearchState → Type 0 where
    stop : {s l : SearchState} → ready_tasks model s ≡ [] → l ≡ s → Outcome s l
    choose :
        {s l : SearchState} (t : OptimizerTask D) (ts : List (OptimizerTask D)) (c : Candidate D)
        → ready_tasks model s ≡ t ∷ ts
        → In c (candidates_for_task doubles t s index)
        → Outcome (closed (assign_task t s c)) l
        → Outcome s l
    skip :
        {s l : SearchState} (t : OptimizerTask D) (ts : List (OptimizerTask D))
        → ready_tasks model s ≡ t ∷ ts
        → may_drop t ≡ true
        → Outcome (closed (drop_task t s)) l
        → Outcome s l

  pub first_ready :
      (s : SearchState) (t : OptimizerTask D) (ts : List (OptimizerTask D))
      → ready_tasks model s ≡ t ∷ ts
      → IsReadyOf model s t
  first_ready s t ts e =
      let a = ready_tasks-All model s in
      let b : All (IsReadyOf model s) (t ∷ ts) = subst (All (IsReadyOf model s)) e a in b.0

  pub Outcome-Reach : {s l : SearchState} → Outcome s l → Reach doubles model index s l
  Outcome-Reach {s} (stop e same) = subst (Reach doubles model index s) (sym same) here
  Outcome-Reach {s} (choose t ts c e m o) =
      let r = first_ready s t ts e in
      Reach-trans doubles model index
        (Reach-trans doubles model index (next here (takes t c r.0 r.1 m))
          (drop_descendants-Reach doubles model index (assign_task t s c)))
        (Outcome-Reach o)
  Outcome-Reach {s} (skip t ts e d o) =
      let r = first_ready s t ts e in
      Reach-trans doubles model index
        (Reach-trans doubles model index (next here (drops t r.0 (ready-undecided s t r.1)))
          (drop_descendants-Reach doubles model index (drop_task t s)))
        (Outcome-Reach o)

  -- The incumbent is this choice.
  pub record Shows (b : Incumbent) (l : SearchState) : Type 0 where
    pub found : b.have_best ≡ true
    pub assigned : b.best.assignments ≡ map SearchAssignment.assignment l.assignments
    pub left_out : b.best.unfulfilled_task_ids ≡ unfulfilled model l
    pub scored : b.best_score ≡ score_for l options

  -- The incumbents agree but for the statistics.
  pub record IsSame (b b' : Incumbent) : Type 0 where
    pub found : b'.have_best ≡ b.have_best
    pub assigned : b'.best.assignments ≡ b.best.assignments
    pub left_out : b'.best.unfulfilled_task_ids ≡ b.best.unfulfilled_task_ids
    pub scored : b'.best_score ≡ b.best_score
    pub fine : b'.best.ok ≡ b.best.ok

  -- From one incumbent to another over a set of choices: it never gets worse, it is the same or one
  -- of the choices, and no choice is better, where the bound of the search is one.
  pub record Covers (L : SearchState → Type 0) (b b' : Incumbent) : Type 0 where
    pub keeps : b.have_best ≡ true → (b'.have_best ≡ true) × AtMost b.best_score b'.best_score
    pub beats :
        All (IsBounded doubles model index options) model.tasks
        → (l : SearchState) → L l
        → (b'.have_best ≡ true) × AtMost (score_for l options) b'.best_score
    pub from : IsSame b b' ⊎ ((l : SearchState) × L l × Shows b' l)
    pub fine : b'.best.ok ≡ b.best.ok

  pub Shows-IsSame : {b b' : Incumbent} {l : SearchState} → Shows b l → IsSame b b' → Shows b' l
  Shows-IsSame s e = record {
    found = e.found ∙ s.found;
    assigned = e.assigned ∙ s.assigned;
    left_out = e.left_out ∙ s.left_out;
    scored = e.scored ∙ s.scored;
  }

  IsSame-trans : {a b c : Incumbent} → IsSame a b → IsSame b c → IsSame a c
  IsSame-trans p q = record {
    found = q.found ∙ p.found;
    assigned = q.assigned ∙ p.assigned;
    left_out = q.left_out ∙ p.left_out;
    scored = q.scored ∙ p.scored;
    fine = q.fine ∙ p.fine;
  }

  -- Nothing to choose from, or nothing better than the incumbent.
  pub Covers-same :
      (L : SearchState → Type 0) {b b' : Incumbent}
      → IsSame b b'
      → (All (IsBounded doubles model index options) model.tasks
          → (l : SearchState) → L l
          → (b.have_best ≡ true) × AtMost (score_for l options) b.best_score)
      → Covers L b b'
  Covers-same L {b} {b'} e h = record {
    keeps = λ k. (e.found ∙ k, rw e.scored (better_score_refl b.best_score));
    beats = λ g l m. (e.found ∙ (h g l m).0, rw e.scored (h g l m).1);
    from = inl e;
    fine = e.fine;
  }

  -- First the one set of choices, and then the other.
  pub Covers-then :
      {L M : SearchState → Type 0} {a b c : Incumbent}
      → Covers L a b
      → Covers M b c
      → Covers (λ l. L l ⊎ M l) a c
  Covers-then {L} {M} {a} {b} {c} p q = record {
    keeps = λ k.
        let x = p.keeps k in
        let y = q.keeps x.0 in
        (y.0, better_score_trans a.best_score b.best_score c.best_score x.1 y.1);
    beats = λ g l m. elim m [
      | inl x ↦
          let u = p.beats g l x in
          let y = q.keeps u.0 in
          (y.0, better_score_trans (score_for l options) b.best_score c.best_score u.1 y.1)
      | inr x ↦ q.beats g l x
    ];
    from = elim q.from [
      | inl same ↦ elim p.from [
        | inl same' ↦ inl (IsSame-trans same' same)
        | inr (l, x, s) ↦ inr (l, inl x, Shows-IsSame s same)
      ]
      | inr (l, x, s) ↦ inr (l, inr x, s)
    ];
    fine = q.fine ∙ p.fine;
  }

  pub Covers-iff :
      {L M : SearchState → Type 0} {a b : Incumbent}
      → ((l : SearchState) → L l → M l)
      → ((l : SearchState) → M l → L l)
      → Covers L a b
      → Covers M a b
  Covers-iff {L} {M} {a} {b} to back p = record {
    keeps = p.keeps;
    beats = λ g l m. p.beats g l (back l m);
    from = elim p.from [ inl same ↦ inl same | inr (l, x, s) ↦ inr (l, to l x, s) ];
    fine = p.fine;
  }

  -- A complete choice is taken where it is the first, or better than the best so far.
  pub offer-Covers :
      (s : SearchState) (b : Incumbent)
      → Covers (λ l. l ≡ s) b (offer model s (score_for s options) b)
  unfolding offer
  offer-Covers s b =
      let current = score_for s options in
      if_cases (Covers (λ l. l ≡ s) b) (not b.have_best || better_score current b.best_score)
        (λ e. record {
          keeps = λ k. (refl, better_score_asym current b.best_score (ground arith));
          beats = λ g l m. (refl, rw m (better_score_refl current));
          from =
              inr
                (s, refl, record { found = refl; assigned = refl; left_out = refl; scored = refl });
          fine = refl;
        })
        (λ e.
          Covers-same (λ l. l ≡ s)
            (record { found = refl; assigned = refl; left_out = refl; scored = refl; fine = refl })
            (λ g l m. (ground arith, rw m (ground arith))))

  -- The choices below a node, by what the node does.
  pub only_stop : {s l : SearchState} → ready_tasks model s ≡ [] → Outcome s l → l ≡ s
  only_stop none_ready (stop e same) = same
  only_stop none_ready (choose t ts c e m o) = cc
  only_stop none_ready (skip t ts e d o) = cc

  abbrev pub Taken : SearchState → OptimizerTask D → SearchState → List (Candidate D) → Type 0
  Taken s t l cs = Any (λ c. Outcome (closed (assign_task t s c)) l) cs

  abbrev pub Branched : SearchState → OptimizerTask D → SearchState → Type 0
  Branched s t l =
      Taken s t l (candidates_for_task doubles t s index)
      ⊎ ((may_drop t ≡ true) × Outcome (closed (drop_task t s)) l)

  taken :
      (s : SearchState) (t : OptimizerTask D) (l : SearchState) (c : Candidate D)
      (cs : List (Candidate D))
      → In c cs
      → Outcome (closed (assign_task t s c)) l
      → Taken s t l cs
  taken s t l c [] m o = absurd m
  taken s t l c (x ∷ cs) (inl e) o =
      inl (subst (λ y. Outcome (closed (assign_task t s y)) l) (sym e) o)
  taken s t l c (x ∷ cs) (inr m) o = inr (taken s t l c cs m o)

  pub comes_from :
      {s l : SearchState} (t : OptimizerTask D) (ts : List (OptimizerTask D))
      → ready_tasks model s ≡ t ∷ ts
      → Outcome s l
      → Branched s t l
  comes_from t ts is_first (stop e same) = cc
  comes_from {s} {l} t ts is_first (choose t' ts' c e m o) =
      let same : t' ≡ t = cc in
      subst (λ x. Branched s x l) same
        (inl (taken s t' l c (candidates_for_task doubles t' s index) m o))
  comes_from {s} {l} t ts is_first (skip t' ts' e d o) =
      let same : t' ≡ t = cc in subst (λ x. Branched s x l) same (inr (d, o))

  goes_to :
      {s l : SearchState} (t : OptimizerTask D) (ts : List (OptimizerTask D))
      (cs : List (Candidate D))
      → ready_tasks model s ≡ t ∷ ts
      → ((c : Candidate D) → In c cs → In c (candidates_for_task doubles t s index))
      → Taken s t l cs
      → Outcome s l
  goes_to t ts [] is_first within x = absurd x
  goes_to t ts (c ∷ cs) is_first within (inl o) = choose t ts c is_first (within c (inl refl)) o
  goes_to t ts (c ∷ cs) is_first within (inr x) =
      goes_to t ts cs is_first (λ d m. within d (inr m)) x

  pub goes_on :
      {s l : SearchState} (t : OptimizerTask D) (ts : List (OptimizerTask D))
      → ready_tasks model s ≡ t ∷ ts
      → Branched s t l
      → Outcome s l
  goes_on {s} t ts is_first (inl x) =
      goes_to t ts (candidates_for_task doubles t s index) is_first (λ c m. m) x
  goes_on t ts is_first (inr x) = skip t ts is_first x.0 x.1
