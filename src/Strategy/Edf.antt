-- ===== src/Strategy/Edf.antt =====
-- The order of edf_strategy.hpp: earliest deadline first, within a priority.
use mathlib.Core.List.{Perm}
use task_orchestrator.Base.{
  ◌≤ℤ◌, ◌≡◌, true, false, List, [], ◌∷◌, Option, none, some, AllPairs, All-mono, IsSortedBy,
  sort_by-IsSortedBy, sort_by, arith,
}
use task_orchestrator.Data.{Time}
use task_orchestrator.Strategy.{TaskInfo, deadline_before, edf_before, edf_strategy}

-- The first deadline is not after the second; no deadline at all is the last.
abbrev pub IsNoLater : Option Time → Option Time → Type 0
IsNoLater d none = Unit
IsNoLater none (some e) = ⊥
IsNoLater (some d) (some e) = d ≤ℤ e

-- A task of a higher priority comes first, and of two of the same priority the one whose deadline
-- is earlier.
abbrev pub IsBeforeEdf : TaskInfo → TaskInfo → Type 0
IsBeforeEdf a b =
    (b.priority ≤ℤ a.priority) × (a.priority ≡ b.priority → IsNoLater a.deadline b.deadline)

deadline_before-asym :
    (x y : Option Time) → deadline_before x y ≡ true → deadline_before y x ≡ false
deadline_before-asym none none h = ground arith
deadline_before-asym none (some e) h = ground arith
deadline_before-asym (some d) none h = ground arith
deadline_before-asym (some d) (some e) h = ground arith

deadline_before_trans :
    (x y z : Option Time)
    → deadline_before y x ≡ false
    → deadline_before z y ≡ false
    → deadline_before z x ≡ false
deadline_before_trans none none none h k = ground arith
deadline_before_trans none none (some e) h k = ground arith
deadline_before_trans none (some e) none h k = ground arith
deadline_before_trans none (some e) (some f) h k = ground arith
deadline_before_trans (some d) none none h k = ground arith
deadline_before_trans (some d) none (some f) h k = ground arith
deadline_before_trans (some d) (some e) none h k = ground arith
deadline_before_trans (some d) (some e) (some f) h k = ground arith

deadline_before-IsNoLater : (x y : Option Time) → deadline_before y x ≡ false → IsNoLater x y
deadline_before-IsNoLater none none h = tt
deadline_before-IsNoLater none (some e) h = cc
deadline_before-IsNoLater (some d) none h = tt
deadline_before-IsNoLater (some d) (some e) h = ground arith

edf_before-asym : (x y : TaskInfo) → edf_before x y ≡ true → edf_before y x ≡ false
unfolding edf_before
edf_before-asym x y h = ground (arith, deadline_before-asym x.deadline y.deadline)

edf_before_trans :
    (x y z : TaskInfo) → edf_before y x ≡ false → edf_before z y ≡ false → edf_before z x ≡ false
unfolding edf_before
edf_before_trans x y z h k = ground (arith, deadline_before_trans x.deadline y.deadline z.deadline)

edf_before-IsBeforeEdf : (x y : TaskInfo) → edf_before y x ≡ false → IsBeforeEdf x y
unfolding edf_before
edf_before-IsBeforeEdf x y h =
    (ground arith, λ same. deadline_before-IsNoLater x.deadline y.deadline (ground arith))

sorted-AllPairs : (xs : List TaskInfo) → IsSortedBy edf_before xs → AllPairs IsBeforeEdf xs
sorted-AllPairs [] h = tt
sorted-AllPairs (x ∷ xs) h = (
  All-mono (λ y. edf_before y x ≡ false) (IsBeforeEdf x) xs (edf_before-IsBeforeEdf x) h.0,
  sorted-AllPairs xs h.1,
)

-- Earliest deadline first puts the tasks in the order of their priorities, the highest first, and
-- within a priority in the order of their deadlines, those without one last; and they are the
-- tasks that went in.
pub edf_strategy-order :
    (tasks : List TaskInfo)
    → AllPairs IsBeforeEdf (edf_strategy.order_tasks tasks)
      × Perm (edf_strategy.order_tasks tasks) tasks
unfolding edf_strategy
edf_strategy-order tasks = (
  sorted-AllPairs (sort_by edf_before tasks)
      (sort_by-IsSortedBy edf_before edf_before-asym edf_before_trans tasks),
  edf_strategy.keeps tasks,
)
