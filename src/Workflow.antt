-- ===== src/Workflow.antt =====
-- task_orchestrator/include/task_orchestrator/core/workflow.hpp and
-- task_orchestrator/src/core/workflow.cpp: phases and processes by id. A hash map is an association
-- list whose order is the iteration order.
pub mod Ready
pub mod Owners
use task_orchestrator.Base.{
  String, Bool, ◌&&◌, not, true, List, [], ◌∷◌, ◌++◌, map, Option, none, some, contains, lookup,
  assign, all_of, if◌then◌else◌,
}
use task_orchestrator.Data.{Phase, Process, task_ids}

pub record Workflow (D : Type 0) : Type 0 where
  pub id : String
  pub phases : List (String × Phase)
  pub processes : List (String × Process D)

abbrev pub is_empty {ℓ} : {A : Type ℓ} → List A → Bool
is_empty [] = Bool.true
is_empty (x ∷ xs) = Bool.false

-- The loop of `root_phases` over the phase map.
unfoldable pub root_ids : List (String × Phase) → List String
root_ids [] = []
root_ids ((id, p) ∷ m) =
    let rest = root_ids m in if is_empty p.dependency_phase_ids then id ∷ rest else rest

-- The test of the loop of `ready_phases`.
abbrev pub is_ready : List String → String → Phase → Bool
is_ready completed id p =
    not (contains id completed) && all_of (λ dep. contains dep completed) p.dependency_phase_ids

unfoldable pub ready_ids : List String → List (String × Phase) → List String
ready_ids completed [] = []
ready_ids completed ((id, p) ∷ m) =
    let rest = ready_ids completed m in if is_ready completed id p then id ∷ rest else rest

module _ {D : Type 0} where
  unfoldable pub add_phase : Workflow D → Phase → Workflow D
  add_phase w p = record w { phases = assign p.id p w.phases }

  unfoldable pub add_process : Workflow D → Process D → Workflow D
  add_process w p = record w { processes = assign p.id p w.processes }

  unfoldable pub phase : Workflow D → String → Option Phase
  phase w id = lookup id w.phases

  unfoldable pub process : Workflow D → String → Option (Process D)
  process w id = lookup id w.processes

  unfoldable pub phase_ids : Workflow D → List String
  phase_ids w = map (λ kv. kv.0) w.phases

  unfoldable pub process_ids : Workflow D → List String
  process_ids w = map (λ kv. kv.0) w.processes

  unfoldable pub root_phases : Workflow D → List String
  unfolding root_ids
  root_phases w = root_ids w.phases

  unfoldable pub ready_phases : Workflow D → List String → List String
  unfolding ready_ids
  ready_phases w completed = ready_ids completed w.phases

  -- The nested loops of `task_ids_for_phase` over a phase's processes.
  unfoldable pub task_ids_of : List (String × Process D) → List String → List String
  unfolding task_ids
  task_ids_of processes [] = []
  task_ids_of processes (pid ∷ pids) =
      let rest = task_ids_of processes pids in
      elim (lookup pid processes) [ none ↦ rest | some proc ↦ task_ids proc ++ rest ]

  unfoldable pub task_ids_for_phase : Workflow D → String → List String
  unfolding task_ids_of phase
  task_ids_for_phase w phase_id = elim (phase w phase_id) [
    | none ↦ []
    | some ph ↦ task_ids_of w.processes ph.process_ids
  ]

  -- The search of `process_for_task` among the sub-processes.
  unfoldable pub owner_of : String → List (String × Process D) → Option (Process D)
  owner_of task_id [] = none
  owner_of task_id ((key, proc) ∷ m) =
      if contains task_id proc.sub_process_ids then some proc else owner_of task_id m

  unfoldable pub process_for_task : Workflow D → String → Option (Process D)
  unfolding owner_of process
  process_for_task w task_id = elim (process w task_id) [
    | some p ↦ some p
    | none ↦ owner_of task_id w.processes
  ]
