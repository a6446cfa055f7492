-- ===== src/PlanDiff.antt =====
-- control_plane/src/service/plan_diff.cpp, on the messages of protocol/proto/task_orchestration.proto
-- and protocol/proto/control_plane.proto that it reads and writes: how two plans differ.
pub mod Patch
use task_orchestrator.Base.{
  ℤ, eqb_ℤ, String, Bool, true, false, not, ◌==◌, ◌||◌, ◌&&◌, List, [], ◌∷◌, Option, none, some,
  lookup, lt_id, is_some, if◌then◌else◌,
}

-- The message `Assignment`.
pub record PlanAssignment : Type 0 where
  pub task_id : String
  pub actor_id : String
  pub start_time : ℤ
  pub end_time : ℤ

pub record RunResult : Type 0 where
  pub ok : Bool
  pub capacity_issue : Bool
  pub assignments : List PlanAssignment
  pub unfulfilled_task_ids : List String
  pub error_message : String

pub record RuntimeApiResponse : Type 0 where
  pub ok : Bool
  pub result : RunResult
  pub error_message : String

pub record AssignmentDiff : Type 0 where
  pub before : PlanAssignment
  pub after : PlanAssignment

pub record WorkflowPlanDiff : Type 0 where
  pub added_assignments : List PlanAssignment
  pub removed_assignments : List PlanAssignment
  pub changed_assignments : List AssignmentDiff

-- `std::map`, in the order of its keys.
abbrev pub AssignmentMap : Type 0
AssignmentMap = List (String × PlanAssignment)

unfoldable pub insert_in_order : String → PlanAssignment → AssignmentMap → AssignmentMap
insert_in_order k v [] = (k, v) ∷ []
insert_in_order k v ((j, w) ∷ m) =
    if lt_id k j then (k, v) ∷ (j, w) ∷ m else (j, w) ∷ insert_in_order k v m

-- `emplace`: nothing happens where the key is there.
unfoldable pub emplace_in_order : String → PlanAssignment → AssignmentMap → AssignmentMap
unfolding insert_in_order
emplace_in_order k v m = if is_some (lookup k m) then m else insert_in_order k v m

unfoldable pub index_all : List PlanAssignment → AssignmentMap → AssignmentMap
unfolding emplace_in_order
index_all [] m = m
index_all (a ∷ rest) m = index_all rest (emplace_in_order a.task_id a m)

unfoldable pub index_assignments : RuntimeApiResponse → AssignmentMap
unfolding index_all
index_assignments response =
    if not response.ok || not response.result.ok
    then []
    else index_all response.result.assignments []

unfoldable pub assignment_changed : PlanAssignment → PlanAssignment → Bool
assignment_changed x y =
    not (x.actor_id == y.actor_id)
    || not (eqb_ℤ x.start_time y.start_time)
    || not (eqb_ℤ x.end_time y.end_time)

-- The first loop adds to the added assignments and to the changed ones, the second to the removed.
unfoldable pub added : AssignmentMap → AssignmentMap → List PlanAssignment
added from [] = []
added from ((task_id, a) ∷ to) =
    let rest = added from to in if is_some (lookup task_id from) then rest else a ∷ rest

unfoldable pub changed : AssignmentMap → AssignmentMap → List AssignmentDiff
unfolding assignment_changed
changed from [] = []
changed from ((task_id, a) ∷ to) =
    let rest = changed from to in
    elim (lookup task_id from) [
      | none ↦ rest
      | some old ↦
          if assignment_changed old a then record { before = old; after = a } ∷ rest else rest
    ]

unfoldable pub removed : AssignmentMap → AssignmentMap → List PlanAssignment
removed to [] = []
removed to ((task_id, a) ∷ from) =
    let rest = removed to from in if is_some (lookup task_id to) then rest else a ∷ rest

unfoldable pub diff_plan_versions : RuntimeApiResponse → RuntimeApiResponse → WorkflowPlanDiff
unfolding index_assignments added changed removed
diff_plan_versions from to = record {
  added_assignments = added (index_assignments from) (index_assignments to);
  removed_assignments = removed (index_assignments to) (index_assignments from);
  changed_assignments = changed (index_assignments from) (index_assignments to);
}
