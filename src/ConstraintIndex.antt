-- ===== src/ConstraintIndex.antt =====
-- task_orchestrator/include/task_orchestrator/optimizer/model.hpp, and constraint_index.hpp beside it
-- with task_orchestrator/src/optimizer/constraint_index.cpp: which actors an optimizer's task may go
-- to, and which tasks wait for it.
pub mod Eligible
pub mod Successors
use task_orchestrator.Base.{
  ℕ, suc, ◌+◌, eqb, ℤ, String, Bool, true, false, not, ◌||◌, ◌&&◌, List, [], ◌∷◌, ◌++◌, map, Option,
  none, some, contains, lookup, assign, emplace, all_of, any_of, lt_id, sort_by, if◌then◌else◌,
}
use task_orchestrator.Data.{Time, Duration, AvailabilityWindow}
use task_orchestrator.Workflow.{is_empty}

pub record OptimizerActor (D : Type 0) : Type 0 where
  pub id : String
  pub kind : String
  pub capacity : ℤ
  pub availability_windows : List AvailabilityWindow
  pub capabilities : List String
  pub execution_cost_per_unit : D

pub record OptimizerTask (D : Type 0) : Type 0 where
  pub id : String
  pub duration : Duration
  pub release_time : Time
  pub latest_start_time : Option Time
  pub deadline : Option Time
  pub priority : ℤ
  pub demand : ℤ
  pub mandatory : Bool
  pub preemptible : Bool
  pub allowed_actor_types : List String
  pub allowed_actor_ids : List String
  pub preferred_actor_ids : List String
  pub required_capabilities : List String
  pub dependency_task_ids : List String
  pub mutually_exclusive_task_ids : List String
  pub actor_distances : List (String × Time)
  pub tardiness_cost_per_unit : D
  pub early_start_bonus : D

pub record OptimizationModel (D : Type 0) : Type 0 where
  pub id : String
  pub actors : List (OptimizerActor D)
  pub tasks : List (OptimizerTask D)

-- `const OptimizerActor*`: the actor, and its place in the model's list, by which pointers differ.
abbrev pub ActorRef : Type 0 → Type 0
ActorRef D = ℕ × OptimizerActor D

pub record ConstraintIndex (D : Type 0) : Type 0 where
  pub tasks_by_id : List (String × OptimizerTask D)
  pub actors_by_id : List (String × ActorRef D)
  pub actors_by_type : List (String × List (ActorRef D))
  pub eligible_actors_by_task : List (String × List (ActorRef D))
  pub successors_by_task : List (String × List String)

-- `m[key].push_back(value)`.
unfoldable pub push_at {ℓ} :
    {V : Type ℓ} → String → V → List (String × List V) → List (String × List V)
push_at key value m = assign key (elim (lookup key m) [ none ↦ [] | some vs ↦ vs ] ++ value ∷ []) m

-- `find`, with an empty list for a missing key.
abbrev pub list_at {ℓ} : {V : Type ℓ} → String → List (String × List V) → List V
list_at key m = elim (lookup key m) [ none ↦ [] | some vs ↦ vs ]

-- The inner loop over a task's dependencies.
unfoldable pub push_successor :
    String → List String → List (String × List String) → List (String × List String)
push_successor task_id [] m = m
push_successor task_id (dep ∷ deps) m = push_successor task_id deps (push_at dep task_id m)

module _ {D : Type 0} where
  abbrev pub refs_from : ℕ → List (OptimizerActor D) → List (ActorRef D)
  refs_from place [] = []
  refs_from place (a ∷ others) = (place, a) ∷ refs_from (suc place) others

  -- The loop over `allowed_actor_ids`.
  unfoldable pub allowed_by_id :
      List (String × ActorRef D) → List String → List String → List (ActorRef D)
  allowed_by_id actors_by_id types [] = []
  allowed_by_id actors_by_id types (id ∷ ids) =
      let rest = allowed_by_id actors_by_id types ids in
      elim (lookup id actors_by_id) [
        | none ↦ rest
        | some ref ↦
            if not (is_empty types) && not (contains ref.1.kind types) then rest else ref ∷ rest
      ]

  -- The second loop over `allowed_actor_types`.
  unfoldable pub allowed_by_type :
      List (String × List (ActorRef D)) → List String → List (ActorRef D)
  allowed_by_type actors_by_type [] = []
  allowed_by_type actors_by_type (t ∷ ts) =
      list_at t actors_by_type ++ allowed_by_type actors_by_type ts

  -- `std::ranges::unique` and `erase`: of equal neighbours the first stays.
  unfoldable pub unique_after : ActorRef D → List (ActorRef D) → List (ActorRef D)
  unique_after x [] = []
  unique_after x (y ∷ ys) = let rest = unique_after y ys in if eqb x.0 y.0 then rest else y ∷ rest

  unfoldable pub unique : List (ActorRef D) → List (ActorRef D)
  unfolding unique_after
  unique [] = []
  unique (x ∷ xs) = x ∷ unique_after x xs

  unfoldable pub build_eligible_actors_for_task :
      OptimizationModel D
      → List (String × ActorRef D)
      → List (String × List (ActorRef D))
      → OptimizerTask D
      → List (ActorRef D)
  unfolding allowed_by_id allowed_by_type unique
  build_eligible_actors_for_task model actors_by_id actors_by_type task =
      if not (is_empty task.allowed_actor_ids)
      then allowed_by_id actors_by_id task.allowed_actor_types task.allowed_actor_ids
      else if not (is_empty task.allowed_actor_types)
      then unique (
          sort_by (λ x y. lt_id x.1.id y.1.id)
            (allowed_by_type actors_by_type task.allowed_actor_types))
      else refs_from 0 model.actors

  -- The loops of the constructor.
  unfoldable pub index_tasks_by_id :
      List (OptimizerTask D) → List (String × OptimizerTask D) → List (String × OptimizerTask D)
  index_tasks_by_id [] m = m
  index_tasks_by_id (task ∷ tasks) m = index_tasks_by_id tasks (assign task.id task m)

  unfoldable pub index_successors :
      List (OptimizerTask D) → List (String × List String) → List (String × List String)
  unfolding push_successor
  index_successors [] m = m
  index_successors (task ∷ tasks) m =
      index_successors tasks (push_successor task.id task.dependency_task_ids m)

  unfoldable pub index_actors_by_id :
      List (ActorRef D) → List (String × ActorRef D) → List (String × ActorRef D)
  index_actors_by_id [] m = m
  index_actors_by_id (ref ∷ refs) m = index_actors_by_id refs (assign ref.1.id ref m)

  unfoldable pub index_actors_by_type :
      List (ActorRef D) → List (String × List (ActorRef D)) → List (String × List (ActorRef D))
  index_actors_by_type [] m = m
  index_actors_by_type (ref ∷ refs) m = index_actors_by_type refs (push_at ref.1.kind ref m)

  unfoldable pub index_eligible :
      (OptimizerTask D → List (ActorRef D))
      → List (OptimizerTask D)
      → List (String × List (ActorRef D))
      → List (String × List (ActorRef D))
  index_eligible eligible [] m = m
  index_eligible eligible (task ∷ tasks) m =
      index_eligible eligible tasks (emplace task.id (eligible task) m)

  unfoldable pub new_index : OptimizationModel D → ConstraintIndex D
  unfolding build_eligible_actors_for_task index_tasks_by_id index_successors index_actors_by_id
      index_actors_by_type index_eligible
  new_index model =
      let actors_by_id = index_actors_by_id (refs_from 0 model.actors) [] in
      let actors_by_type = index_actors_by_type (refs_from 0 model.actors) [] in
      record {
        tasks_by_id = index_tasks_by_id model.tasks [];
        actors_by_id = actors_by_id;
        actors_by_type = actors_by_type;
        eligible_actors_by_task =
            index_eligible (build_eligible_actors_for_task model actors_by_id actors_by_type)
              model.tasks [];
        successors_by_task = index_successors model.tasks [];
      }

  unfoldable pub task : ConstraintIndex D → String → Option (OptimizerTask D)
  task index id = lookup id index.tasks_by_id

  unfoldable pub actor : ConstraintIndex D → String → Option (ActorRef D)
  actor index id = lookup id index.actors_by_id

  unfoldable pub eligible_actors_for_task : ConstraintIndex D → OptimizerTask D → List (ActorRef D)
  eligible_actors_for_task index t = list_at t.id index.eligible_actors_by_task

  unfoldable pub successors : ConstraintIndex D → String → List String
  successors index id = list_at id index.successors_by_task

  unfoldable pub dependencies_satisfied : OptimizerTask D → List String → List String → Bool
  dependencies_satisfied t scheduled dropped =
      all_of (λ dep. contains dep scheduled && not (contains dep dropped)) t.dependency_task_ids

  unfoldable pub dependency_blocked : OptimizerTask D → List String → Bool
  dependency_blocked t dropped = any_of (λ dep. contains dep dropped) t.dependency_task_ids
