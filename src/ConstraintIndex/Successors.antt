-- ===== src/ConstraintIndex/Successors.antt =====
-- The successors that constraint_index.cpp collects.
use task_orchestrator.Base.{
  ◌≡◌, refl, ap, ◌∙◌, String, Bool, true, false, ◌||◌, ◌&&◌, List, [], ◌∷◌, ◌++◌, Option, none,
  some, contains, contains-append, lookup, assign, lookup-assign, any_of, eq_iff, ◌==◌, arith,
  if◌then◌else◌,
}
use task_orchestrator.ConstraintIndex.{
  OptimizerTask, OptimizationModel, push_at, list_at, push_successor, index_successors, new_index,
  successors,
}

pub list_at-assign {ℓ} :
    {V : Type ℓ} (k d : String) (vs : List V) (m : List (String × List V))
    → list_at d (assign k vs m) ≡ (if k == d then vs else list_at d m)
list_at-assign {V = V} k d vs m =
    ap (λ (o : Option (List V)). elim o [ none ↦ [] | some vs ↦ vs ]) (lookup-assign k d vs m)
    ∙ chosen (k == d)
  where
    chosen :
        (b : Bool)
        → (elim (if b then some vs else lookup d m) as (λ x. List V) [ none ↦ [] | some vs ↦ vs ])
          ≡ (if b then vs else list_at d m)
    chosen true = refl
    chosen false = refl

pub list_at-push_at {ℓ} :
    {V : Type ℓ} (k d : String) (v : V) (m : List (String × List V))
    → list_at d (push_at k v m) ≡ (if k == d then list_at k m ++ v ∷ [] else list_at d m)
unfolding push_at
list_at-push_at k d v m = list_at-assign k d (list_at k m ++ v ∷ []) m

contains-push_at :
    (k v d s : String) (m : List (String × List String))
    → contains s (list_at d (push_at k v m)) ≡ ((k == d && v == s) || contains s (list_at d m))
contains-push_at k v d s m =
    ap (contains s) (list_at-push_at k d v m) ∙ cases (k == d) (λ e. (eq_iff k d).0 e)
  where
    added : contains s (list_at k m ++ v ∷ []) ≡ (v == s || contains s (list_at k m))
    added = contains-append s (list_at k m) (v ∷ []) ∙ unfold contains in ground arith

    cases :
        (b : Bool)
        → (b ≡ true → k ≡ d)
        → contains s (if b then list_at k m ++ v ∷ [] else list_at d m)
          ≡ ((b && v == s) || contains s (list_at d m))
    cases true f = added ∙ ap (λ x. v == s || contains s (list_at x m)) (f refl)
    cases false f = refl

contains-push_successor :
    (id : String) (deps : List String) (d s : String) (m : List (String × List String))
    → contains s (list_at d (push_successor id deps m))
      ≡ ((contains d deps && id == s) || contains s (list_at d m))
unfolding push_successor contains
contains-push_successor id [] d s m = refl
contains-push_successor id (dep ∷ deps) d s m =
    contains-push_successor id deps d s (push_at dep id m)
    ∙ ground (arith, contains-push_at dep id d s m)

contains-index_successors :
    {D : Type 0} (tasks : List (OptimizerTask D)) (d s : String) (m : List (String × List String))
    → contains s (list_at d (index_successors tasks m)) ≡ (
        any_of (λ t. contains d t.dependency_task_ids && t.id == s) tasks
        || contains s (list_at d m))
unfolding index_successors
contains-index_successors [] d s m = refl
contains-index_successors (t ∷ tasks) d s m =
    contains-index_successors tasks d s (push_successor t.id t.dependency_task_ids m)
    ∙ ground (arith, contains-push_successor t.id t.dependency_task_ids d s m)

-- The successors that the constraint index has of a task are exactly the tasks of the model that
-- depend on it.
pub contains-successors :
    {D : Type 0} (model : OptimizationModel D) (d s : String)
    → contains s (successors (new_index model) d)
      ≡ any_of (λ t. contains d t.dependency_task_ids && t.id == s) model.tasks
unfolding successors new_index
contains-successors model d s =
    contains-index_successors model.tasks d s [] ∙ none_else (any_of _ model.tasks)
  where
    none_else : (b : Bool) → (b || contains s (list_at {V = String} d [])) ≡ b
    none_else b = unfold contains lookup in ground arith
