-- ===== src/Optimizer/Types.antt =====
-- task_orchestrator/include/task_orchestrator/optimizer/backend.hpp and the results in model.hpp
-- beside it: options, weights, descriptors and solutions of the optimizer's backends.
use task_orchestrator.Base.{ℕ, ℤ, String, Bool, List}
use task_orchestrator.Data.{Time}

pub data BackendKind : Type 0 where
  auto : BackendKind
  indexed_exact : BackendKind
  or_tools_cp_sat : BackendKind
  commercial_mip : BackendKind

pub record ObjectiveWeights : Type 0 where
  pub fulfilled_task_weight : ℤ
  pub priority_weight : ℤ
  pub makespan_weight : ℤ
  pub travel_distance_weight : ℤ
  pub tardiness_weight : ℤ
  pub execution_cost_weight : ℤ
  pub preferred_actor_weight : ℤ

pub record OptimizationOptions (D : Type 0) : Type 0 where
  pub backend_kind : BackendKind
  pub time_limit_ms : ℤ
  pub relative_gap_limit : D
  pub num_search_workers : ℤ
  pub allow_partial_plan : Bool
  pub objective : ObjectiveWeights

pub record BackendDescriptor : Type 0 where
  pub kind : BackendKind
  pub name : String
  pub available : Bool
  pub optional_dependency : Bool

pub record OptimizedAssignment : Type 0 where
  pub task_id : String
  pub actor_id : String
  pub start_time : Time
  pub end_time : Time

pub record OptimizationStats : Type 0 where
  pub search_nodes : ℕ
  pub pruned_nodes : ℕ

pub record OptimizationSolution : Type 0 where
  pub ok : Bool
  pub assignments : List OptimizedAssignment
  pub unfulfilled_task_ids : List String
  pub backend_name : String
  pub stats : OptimizationStats
  pub error_message : String
