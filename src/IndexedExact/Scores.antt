-- ===== src/IndexedExact/Scores.antt =====
-- `score_for` and `better_score` of indexed_exact_backend.cpp: an order on scores, and how far a
-- score can rise below a node of the search.
use task_orchestrator.Base.{
  ◌+◌, ◌*◌, ◌≤◌, ℤ, pos, ◌+ℤ◌, ◌*ℤ◌, ◌≤ℤ◌, max_ℤ, ◌≡◌, refl, true, false, List, [], ◌∷◌, ◌++◌,
  length, length-append, All, All-at, arith, +ℤ_parts, -ℤ_parts, max_ℤ-bounds,
}
use task_orchestrator.Data.{Doubles}
use task_orchestrator.ConstraintIndex.{OptimizerTask, OptimizationModel, ConstraintIndex}
use task_orchestrator.Optimizer.Types.{OptimizationOptions}
use task_orchestrator.IndexedExact.State.{
  SearchState, SearchAssignment, ObjectiveScore, priority_from, makespan_from, score_for,
  better_score,
}
use task_orchestrator.IndexedExact.Solve.{
  assign_task, drop_task, search_assignment, remaining_possible, optimistic,
}
use task_orchestrator.IndexedExact.Steps.{
  Step, drops, takes, Reach, here, next, undecided, IsCounted, Step-undecided,
}

pub better_score_refl : (x : ObjectiveScore) → better_score x x ≡ false
unfolding better_score
better_score_refl x = ground arith

-- What a score in the order is not below.
abbrev pub AtMost : ObjectiveScore → ObjectiveScore → Type 0
AtMost x y = better_score x y ≡ false

pub better_score_asym : (x y : ObjectiveScore) → better_score x y ≡ true → AtMost y x
unfolding better_score
better_score_asym x y h = ground (arith, -ℤ_parts (pos 0) x.makespan, -ℤ_parts (pos 0) y.makespan)

pub better_score_trans : (x y z : ObjectiveScore) → AtMost x y → AtMost y z → AtMost x z
unfolding better_score
better_score_trans x y z h k =
    ground
      (arith, -ℤ_parts (pos 0) x.makespan, -ℤ_parts (pos 0) y.makespan, -ℤ_parts (pos 0) z.makespan)

priority_from-append :
    (w running : ℤ) (xs : List SearchAssignment) (a : SearchAssignment)
    → priority_from w running (xs ++ a ∷ []) ≡ priority_from w running xs +ℤ a.priority *ℤ w
unfolding priority_from
priority_from-append w running [] a = refl
priority_from-append w running (x ∷ xs) a = priority_from-append w (running +ℤ x.priority *ℤ w) xs a

makespan_from-append :
    (running : ℤ) (xs : List SearchAssignment) (a : SearchAssignment)
    → makespan_from running (xs ++ a ∷ []) ≡ max_ℤ (makespan_from running xs) a.assignment.end_time
unfolding makespan_from
makespan_from-append running [] a = refl
makespan_from-append running (x ∷ xs) a =
    makespan_from-append (max_ℤ running x.assignment.end_time) xs a

module _ {D : Type 0} (doubles : Doubles D) (model : OptimizationModel D)
    (index : ConstraintIndex D) (options : OptimizationOptions D) where
  -- No task is worth more than what the bound of the search allows for it.
  abbrev pub IsBounded : OptimizerTask D → Type 0
  IsBounded t = t.priority *ℤ options.objective.priority_weight ≤ℤ pos 1000000

  abbrev total : SearchState → ℤ
  total s = priority_from options.objective.priority_weight (pos 0) s.assignments

  abbrev span : SearchState → ℤ
  span s = makespan_from (pos 0) s.assignments

  -- How the parts of the score change from a node to one below it.
  record Grows (s l : SearchState) : Type 0 where
    count : length s.assignments ≤ length l.assignments
    limit :
        length l.assignments + undecided model.tasks l
        ≤ length s.assignments + undecided model.tasks s
    worth :
        total l +ℤ pos (1000000 * length s.assignments)
        ≤ℤ total s +ℤ pos (1000000 * length l.assignments)
    longer : span s ≤ℤ span l

  -- The subtractions of `size_t` do not wrap, and leave room for every task that is not decided.
  pub remaining_possible-fits :
      (s : SearchState)
      → IsCounted doubles model index s
      → (remaining_possible model s + length s.scheduled + length s.dropped ≡ length model.tasks)
        × (undecided model.tasks s ≤ remaining_possible model s)
  unfolding remaining_possible
  remaining_possible-fits s k = ground arith

  module _ (bounded : All IsBounded model.tasks) where
    Step-Grows : {s t : SearchState} → Step doubles model index s t → Grows s t
    Step-Grows {s} (drops t m h) =
        let st : Step doubles model index s (drop_task t s) = drops t m h in
        let fewer = Step-undecided doubles model index st in
        unfold drop_task in
        (record {
          count = omega arith;
          limit = omega (arith, fewer);
          worth = omega arith;
          longer = omega arith;
        })
    Step-Grows {s} (takes t c m r e) =
        let st : Step doubles model index s (assign_task t s c) = takes t c m r e in
        let fewer = Step-undecided doubles model index st in
        let one = All-at IsBounded t model.tasks bounded m in
        let a = search_assignment t c in
        let len = length-append s.assignments (a ∷ []) in
        let w = options.objective.priority_weight in
        let sum = priority_from-append w (pos 0) s.assignments a in
        let top = makespan_from-append (pos 0) s.assignments a in
        let upper = max_ℤ-bounds (span s) c.end_time in
        unfold assign_task in
        (record {
          count = omega (arith, len);
          limit = omega (arith, fewer, len);
          worth =
              rw (len, sum) (omega (arith, one, +ℤ_parts (total s) (t.priority *ℤ w), +ℤ_parts));
          longer = rw top upper.0;
        })

    Reach-Grows : {s l : SearchState} → Reach doubles model index s l → Grows s l
    Reach-Grows here = record {
      count = omega arith;
      limit = omega arith;
      worth = omega arith;
      longer = omega arith;
    }
    Reach-Grows {s} {l} (next {t} r st) =
        let g = Reach-Grows r in
        let h = Step-Grows st in
        record {
          count = omega (arith, g.count, h.count);
          limit = omega (arith, g.limit, h.limit);
          worth = omega (
            arith,
            g.worth,
            h.worth,
            +ℤ_parts (total l) (pos (1000000 * length s.assignments)),
            +ℤ_parts (total s) (pos (1000000 * length l.assignments)),
            +ℤ_parts,
          );
          longer = omega (arith, g.longer, h.longer);
        }

    -- No search state below a node has a better score than the optimistic one of the node.
    pub Reach-optimistic :
        {s l : SearchState}
        → Reach doubles model index s l
        → IsCounted doubles model index s
        → AtMost (score_for l options) (optimistic model s (score_for s options))
    unfolding optimistic score_for better_score
    Reach-optimistic {s} {l} r k =
        let g = Reach-Grows r in
        let rest = remaining_possible model s in
        let fits = remaining_possible-fits s k in
        ground (
          arith,
          g.limit,
          g.worth,
          g.longer,
          fits,
          +ℤ_parts (total s) (pos (rest * 1000000)),
          +ℤ_parts (total s) (pos (1000000 * length l.assignments)),
          +ℤ_parts (total l) (pos (1000000 * length s.assignments)),
          -ℤ_parts (pos 0) (span s),
          -ℤ_parts (pos 0) (span l),
        )
