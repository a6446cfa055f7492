-- ===== src/Base/Pairs.antt =====
-- Lists of which every two elements are related, and sorting them.
use mathlib.Core.Bool.{Bool}
use mathlib.Core.Logic.{inl, inr}
use mathlib.Core.List.{List, [], ◌∷◌, ◌++◌}
use task_orchestrator.Base.Tests.{Bool-cases}
use task_orchestrator.Base.Lists.{All, All-append, AllPairs}
use task_orchestrator.Base.Sorting.{insert_by, sort_by, All-insert_by, All-sort_by}

module _ {A : Type 0} (R : A → A → Type 0) where
  pub AllPairs-append :
      (xs : List A) (y : A) → AllPairs R xs → All (λ x. R x y) xs → AllPairs R (xs ++ y ∷ [])
  AllPairs-append [] y h k = (tt, tt)
  AllPairs-append (x ∷ xs) y h k =
      (All-append (R x) xs (y ∷ []) h.0 (k.0, tt), AllPairs-append xs y h.1 k.1)

  module _ (sym_R : (x y : A) → R x y → R y x) (lt : A → A → Bool) where
    AllPairs-insert_by :
        (y : A) (xs : List A) → All (R y) xs → AllPairs R xs → AllPairs R (insert_by lt y xs)
    unfolding insert_by
    AllPairs-insert_by y [] k h = (tt, tt)
    AllPairs-insert_by y (x ∷ xs) k h = elim (Bool-cases (lt x y)) [
      | inl e ↦
          rw e (All-insert_by lt (R x) y xs (sym_R y x k.0) h.0, AllPairs-insert_by y xs k.1 h.1)
      | inr e ↦ rw e (k, h)
    ]

    pub AllPairs-sort_by : (xs : List A) → AllPairs R xs → AllPairs R (sort_by lt xs)
    unfolding sort_by
    AllPairs-sort_by [] h = tt
    AllPairs-sort_by (x ∷ xs) h =
        AllPairs-insert_by x (sort_by lt xs) (All-sort_by lt (R x) xs h.0) (AllPairs-sort_by xs h.1)
