-- ===== src/PlanDiff/Patch.antt =====
-- The difference that plan_diff.cpp computes turns the one plan into the other.
use task_orchestrator.Base.{
  if_holds, eq_of_parts, ◌≡◌, refl, sym, ap, subst, ◌∙◌, inl, inr, String, Bool, true, false, not,
  ◌==◌, eq_iff, ◌||◌, ◌&&◌, List, [], ◌∷◌, Option, none, some, lookup, lt_id, is_some, IsMap, All,
  All-lookup, any_of, find_if, arith, Bool-cases, Option-cases, if◌then◌else◌,
}
use task_orchestrator.PlanDiff.{
  PlanAssignment, RuntimeApiResponse, AssignmentDiff, WorkflowPlanDiff, AssignmentMap,
  insert_in_order, emplace_in_order, index_all, index_assignments, assignment_changed, added,
  changed, removed, diff_plan_versions,
}

-- Each assignment stands under its task.
abbrev pub IsKeyed : AssignmentMap → Type 0
IsKeyed = All (λ kv. kv.1.task_id ≡ kv.0)

lookup-insert_in_order :
    (k j : String) (v : PlanAssignment) (m : AssignmentMap)
    → lookup k m ≡ none
    → lookup j (insert_in_order k v m) ≡ (if k == j then some v else lookup j m)
unfolding lookup insert_in_order
lookup-insert_in_order k j v [] h = refl
lookup-insert_in_order k j v ((i, w) ∷ m) h =
    ground (arith, h, eq_iff k j, eq_iff i k, eq_iff i j, lookup-insert_in_order k j v m)

insert_in_order-IsMap :
    (k : String) (v : PlanAssignment) (m : AssignmentMap)
    → lookup k m ≡ none
    → IsMap m
    → IsMap (insert_in_order k v m)
unfolding insert_in_order lookup
insert_in_order-IsMap k v [] h u = (refl, tt)
insert_in_order-IsMap k v ((i, w) ∷ m) h u = elim (Bool-cases (lt_id k i)) [
  | inl l ↦ rw l (ap is_some h, u)
  | inr l ↦ rw l (
    ground (arith, h, u.0, eq_iff i k, eq_iff k i, lookup-insert_in_order k i v m),
    insert_in_order-IsMap k v m (ground (arith, h)) u.1,
  )
]

insert_in_order-IsKeyed :
    (k : String) (v : PlanAssignment) (m : AssignmentMap)
    → v.task_id ≡ k
    → IsKeyed m
    → IsKeyed (insert_in_order k v m)
unfolding insert_in_order
insert_in_order-IsKeyed k v [] e h = (e, tt)
insert_in_order-IsKeyed k v ((i, w) ∷ m) e h = elim (Bool-cases (lt_id k i)) [
  | inl l ↦ rw l (e, h)
  | inr l ↦ rw l (h.0, insert_in_order-IsKeyed k v m e h.1)
]

find_if-added :
    (from : AssignmentMap) (id : String) (to : AssignmentMap)
    → IsKeyed to
    → find_if (λ a. a.task_id == id) (added from to)
      ≡ (if is_some (lookup id from) then none else lookup id to)
unfolding added lookup
find_if-added from id [] h = ground arith
find_if-added from id ((k, a) ∷ to) h =
    ground (arith, h.0, eq_iff k id, eq_iff a.task_id id, find_if-added from id to h.1)

any_of-removed :
    (to : AssignmentMap) (id : String) (from : AssignmentMap)
    → IsKeyed from
    → any_of (λ a. a.task_id == id) (removed to from)
      ≡ (is_some (lookup id from) && not (is_some (lookup id to)))
unfolding removed lookup
any_of-removed to id [] h = ground arith
any_of-removed to id ((k, a) ∷ from) h =
    ground (arith, h.0, eq_iff k id, eq_iff a.task_id id, any_of-removed to id from h.1)

index_all-keeps :
    (rest : List PlanAssignment) (m : AssignmentMap)
    → IsMap m
    → IsKeyed m
    → IsMap (index_all rest m) × IsKeyed (index_all rest m)
unfolding index_all emplace_in_order
index_all-keeps [] m u h = (u, h)
index_all-keeps (a ∷ rest) m u h = elim (Option-cases (lookup a.task_id m)) [
  | inr (old, e) ↦ rw (e, index_all) (index_all-keeps rest m u h)
  | inl e ↦
      rw (e, index_all)
        (index_all-keeps rest (insert_in_order a.task_id a m)
          (insert_in_order-IsMap a.task_id a m e u) (insert_in_order-IsKeyed a.task_id a m refl h))
]

index_assignments-keeps :
    (response : RuntimeApiResponse)
    → IsMap (index_assignments response) × IsKeyed (index_assignments response)
unfolding index_assignments
index_assignments-keeps response =
    if_holds (λ m. IsMap m × IsKeyed m) (not response.ok || not response.result.ok) (tt, tt)
      (index_all-keeps response.result.assignments [] tt tt)

-- The change of a task, from what the two plans have for it.
abbrev change_of : Option PlanAssignment → Option PlanAssignment → Option AssignmentDiff
change_of none o = none
change_of (some x) none = none
change_of (some x) (some y) =
    if assignment_changed x y then some (record { before = x; after = y }) else none

abbrev is_change : String → AssignmentDiff → Bool
is_change id d = d.after.task_id == id

changed-absent :
    (from : AssignmentMap) (id : String) (to : AssignmentMap)
    → IsKeyed to
    → lookup id to ≡ none
    → find_if (is_change id) (changed from to) ≡ none
unfolding changed lookup
changed-absent from id [] h e = refl
changed-absent from id ((k, a) ∷ to) h e =
    ground (arith, e, h.0, eq_iff k id, eq_iff a.task_id id, changed-absent from id to h.1)

find_if-changed :
    (from : AssignmentMap) (id : String) (to : AssignmentMap)
    → IsMap to
    → IsKeyed to
    → find_if (is_change id) (changed from to) ≡ change_of (lookup id from) (lookup id to)
unfolding changed lookup
find_if-changed from id [] u h = none_new (lookup id from)
  where
    none_new : (o : Option PlanAssignment) → none ≡ change_of o none
    none_new none = refl
    none_new (some x) = refl
find_if-changed from id ((k, a) ∷ to) u h = elim (Bool-cases (k == id)) [
  | inr e ↦
      ground (arith, e, h.0, eq_iff k id, eq_iff a.task_id id, find_if-changed from id to u.1 h.1)
  | inl e ↦
      let key : k ≡ id = (eq_iff k id).0 e in
      let same : lookup k from ≡ lookup id from = ap (λ i. lookup i from) key in
      let alone : lookup id to ≡ none =
        absent (lookup id to) (subst (λ i. is_some (lookup i to) ≡ false) key u.0) in
      ground (arith, e, same, h.0, eq_iff a.task_id id, changed-absent from id to h.1 alone)
]
  where
    absent : (o : Option PlanAssignment) → is_some o ≡ false → o ≡ none
    absent none f = refl
    absent (some x) f = cc

same_fields :
    (x y : PlanAssignment) → x.task_id ≡ y.task_id → assignment_changed x y ≡ false → x ≡ y
unfolding assignment_changed
same_fields x y task h =
    let actor : x.actor_id ≡ y.actor_id = (eq_iff x.actor_id y.actor_id).0 (ground (arith, h)) in
    let start : x.start_time ≡ y.start_time =
      eq_of_parts x.start_time y.start_time (ground (arith, h)) in
    let end_ : x.end_time ≡ y.end_time = eq_of_parts x.end_time y.end_time (ground (arith, h)) in
    λ i. record { task_id = task i; actor_id = actor i; start_time = start i; end_time = end_ i }

-- What a plan has for a task, once it is removed, changed, added or left as it was.
abbrev outcome :
    Bool
    → Option AssignmentDiff
    → Option PlanAssignment
    → Option PlanAssignment
    → Option PlanAssignment
outcome true c a old = none
outcome false (some c) a old = some c.after
outcome false none (some a) old = some a
outcome false none none old = old

-- What a plan has for a task once the difference is applied to it: removed tasks go, changed ones
-- are replaced, and added ones come in.
abbrev pub patched : WorkflowPlanDiff → AssignmentMap → String → Option PlanAssignment
patched d from id =
    outcome (any_of (λ a. a.task_id == id) d.removed_assignments)
      (find_if (is_change id) d.changed_assignments)
      (find_if (λ a. a.task_id == id) d.added_assignments) (lookup id from)

outcome_new :
    (x y : Option PlanAssignment)
    → ((a b : PlanAssignment) → x ≡ some a → y ≡ some b → a.task_id ≡ b.task_id)
    → outcome (is_some x && not (is_some y)) (change_of x y) (if is_some x then none else y) x ≡ y
outcome_new none none h = refl
outcome_new none (some b) h = refl
outcome_new (some a) none h = refl
outcome_new (some a) (some b) h = elim (Bool-cases (assignment_changed a b)) [
  | inl e ↦ rw e refl
  | inr e ↦ rw e (ap some (same_fields a b (h a b refl refl) e))
]

-- Applied to the one plan, the difference that diff_plan_versions computes of two plans gives the
-- other, for every task.
pub patched-diff_plan_versions :
    (from to : RuntimeApiResponse) (id : String)
    → patched (diff_plan_versions from to) (index_assignments from) id
      ≡ lookup id (index_assignments to)
unfolding diff_plan_versions
patched-diff_plan_versions from to id =
    let f = index_assignments from in
    let t = index_assignments to in
    let (uf, kf) = index_assignments-keeps from in
    let (ut, kt) = index_assignments-keeps to in
    let p = any_of-removed t id f kf in
    let q = find_if-changed f id t ut kt in
    let r = find_if-added f id t kt in
    (λ i. outcome (p i) (q i) (r i) (lookup id f))
    ∙ outcome_new (lookup id f) (lookup id t) (λ a b x y.
      All-lookup (λ kv. kv.1.task_id ≡ kv.0) id f kf x
      ∙ sym (All-lookup (λ kv. kv.1.task_id ≡ kv.0) id t kt y))
