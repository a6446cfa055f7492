-- ===== src/DiscreteTime/Formulation.antt =====
-- task_orchestrator/src/optimizer/discrete_time_formulation.cpp: the formulation as a whole, and the
-- solution that selected options stand for.
use task_orchestrator.Base.{
  ℕ, zero, suc, ltb, eqb, ℤ, pos, String, Bool, true, false, not, ◌||◌, ◌&&◌, List, [], ◌∷◌, ◌++◌,
  map, Option, none, some, contains, lookup, emplace, any_of, lt_id, lex, keep_if, sort_by,
  if◌then◌else◌,
}
use task_orchestrator.Data.{Time, Doubles}
use task_orchestrator.ConstraintIndex.{
  OptimizerActor, OptimizerTask, OptimizationModel, ConstraintIndex, eligible_actors_for_task,
}
use task_orchestrator.Optimizer.Types.{
  OptimizationOptions, OptimizedAssignment, OptimizationStats, OptimizationSolution,
}
use task_orchestrator.DiscreteTime.{
  DiscreteOption, DiscreteTaskDecision, ActorTimeSlotConstraint, DependencyConstraint,
  MutualExclusionConstraint, SlotMap, Building, push_actors,
}

pub record DiscreteTimeFormulation : Type 0 where
  pub options : List DiscreteOption
  pub task_decisions : List DiscreteTaskDecision
  pub actor_time_slots : List ActorTimeSlotConstraint
  pub dependencies : List DependencyConstraint
  pub mutual_exclusions : List MutualExclusionConstraint
  pub horizon_end : Time

abbrev pub nth {ℓ} : {A : Type ℓ} → ℕ → List A → Option A
nth n [] = none
nth zero (x ∷ xs) = some x
nth (suc n) (x ∷ xs) = nth n xs

module _ {D : Type 0} where
  unfoldable pub index_tasks : ℕ → List (OptimizerTask D) → List (String × ℕ) → List (String × ℕ)
  index_tasks place [] m = m
  index_tasks place (task ∷ tasks) m = index_tasks (suc place) tasks (emplace task.id place m)

  -- A slot of an actor that the model does not have, which is out of range, has no constraint.
  unfoldable pub slot_constraints : List (OptimizerActor D) → SlotMap → List ActorTimeSlotConstraint
  slot_constraints actors [] = []
  slot_constraints actors ((actor_index, time, options) ∷ slots) =
      let rest = slot_constraints actors slots in
      elim (nth actor_index actors) [
        | none ↦ rest
        | some actor ↦
            record {
              actor_index = actor_index;
              actor_id = actor.id;
              time = time;
              capacity = actor.capacity;
              option_indexes = options;
            }
            ∷ rest
      ]

unfoldable pub dependencies_of : List (String × ℕ) → ℕ → List String → List DependencyConstraint
dependencies_of indexes task_index [] = []
dependencies_of indexes task_index (id ∷ ids) =
    let rest = dependencies_of indexes task_index ids in
    elim (lookup id indexes) [
      | none ↦ rest
      | some place ↦
          record { predecessor_task_index = place; successor_task_index = task_index } ∷ rest
    ]

abbrev pub is_pair : ℕ → ℕ → MutualExclusionConstraint → Bool
is_pair first second m = eqb m.first_task_index first && eqb m.second_task_index second

-- The pair of two places is pushed where they differ and it is new.
unfoldable pub push_pair : ℕ → ℕ → List MutualExclusionConstraint → List MutualExclusionConstraint
push_pair a b pairs =
    let first = if ltb b a then b else a in
    let second = if ltb a b then b else a in
    if eqb first second || any_of (is_pair first second) pairs
    then pairs
    else pairs ++ record { first_task_index = first; second_task_index = second } ∷ []

unfoldable pub push_exclusions :
    List (String × ℕ)
    → ℕ
    → List String
    → List MutualExclusionConstraint
    → List MutualExclusionConstraint
unfolding push_pair
push_exclusions indexes task_index [] pairs = pairs
push_exclusions indexes task_index (id ∷ ids) pairs =
    push_exclusions indexes task_index ids
      (elim (lookup id indexes) [ none ↦ pairs | some place ↦ push_pair task_index place pairs ])

-- The formulation so far, with what its options still need.
pub record Formulating : Type 0 where
  pub building : Building
  pub formulation : DiscreteTimeFormulation

module _ {D : Type 0} (doubles : Doubles D) (llround : D → ℤ) (options : OptimizationOptions D)
    (model : OptimizationModel D) (index : ConstraintIndex D) where
  -- The body of the loop over the tasks.
  unfoldable pub formulate_task :
      List (String × ℕ) → ℕ → OptimizerTask D → Formulating → Formulating
  unfolding push_actors dependencies_of push_exclusions eligible_actors_for_task
  formulate_task indexes task_index task f =
      let b =
        push_actors doubles llround options model task task_index
          (eligible_actors_for_task index task) (record (f.building) { option_indexes = [] }) in
      record {
        building = b;
        formulation = record (f.formulation) {
          task_decisions =
              f.formulation.task_decisions
              ++ record {
                task_index = task_index;
                task_id = task.id;
                required = not options.allow_partial_plan && task.mandatory;
                option_indexes = b.option_indexes;
              }
                ∷ [];
          dependencies =
              f.formulation.dependencies
              ++ dependencies_of indexes task_index task.dependency_task_ids;
          mutual_exclusions =
              push_exclusions indexes task_index task.mutually_exclusive_task_ids
                f.formulation.mutual_exclusions;
        };
      }

  unfoldable pub formulate_tasks :
      List (String × ℕ) → ℕ → List (OptimizerTask D) → Formulating → Formulating
  unfolding formulate_task
  formulate_tasks indexes task_index [] f = f
  formulate_tasks indexes task_index (task ∷ tasks) f =
      formulate_tasks indexes (suc task_index) tasks (formulate_task indexes task_index task f)

  abbrev pub no_formulation : Formulating
  no_formulation = record {
    building = record {
      options = [];
      option_indexes = [];
      horizon_end = pos 0;
      slot_option_indexes = [];
    };
    formulation = record {
      options = [];
      task_decisions = [];
      actor_time_slots = [];
      dependencies = [];
      mutual_exclusions = [];
      horizon_end = pos 0;
    };
  }

  unfoldable pub build_discrete_time_formulation : DiscreteTimeFormulation
  unfolding index_tasks formulate_tasks slot_constraints
  build_discrete_time_formulation =
      let f = formulate_tasks (index_tasks 0 model.tasks []) 0 model.tasks no_formulation in
      record (f.formulation) {
        options = f.building.options;
        horizon_end = f.building.horizon_end;
        actor_time_slots = slot_constraints model.actors f.building.slot_option_indexes;
      }

abbrev pub assignment_before : OptimizedAssignment → OptimizedAssignment → Bool
assignment_before a b = lex a.start_time b.start_time (
    lex a.end_time b.end_time (
      if lt_id a.task_id b.task_id
      then true
      else if lt_id b.task_id a.task_id
      then false
      else lt_id a.actor_id b.actor_id))

abbrev pub assignment_of : DiscreteOption → OptimizedAssignment
assignment_of option = record {
  task_id = option.task_id;
  actor_id = option.actor_id;
  start_time = option.start_time;
  end_time = option.end_time;
}

-- The options of the indices, where they are in range.
unfoldable pub selected : List DiscreteOption → List ℕ → List DiscreteOption
selected options [] = []
selected options (i ∷ is) =
    let rest = selected options is in
    elim (nth i options) [ none ↦ rest | some option ↦ option ∷ rest ]

module _ {D : Type 0} where
  unfoldable pub decode_for :
      OptimizationModel D → List DiscreteOption → String → OptimizationStats → OptimizationSolution
  decode_for model chosen backend_name stats = record {
    ok = true;
    assignments = sort_by assignment_before (map assignment_of chosen);
    unfulfilled_task_ids = map OptimizerTask.id (
        keep_if
          (λ (task : OptimizerTask D). not (contains task.id (map DiscreteOption.task_id chosen)))
          model.tasks);
    backend_name = backend_name;
    stats = stats;
    error_message = "";
  }

  -- The model is none for a null pointer.
  unfoldable pub decode_selected_options :
      Option (OptimizationModel D)
      → DiscreteTimeFormulation
      → List ℕ
      → String
      → OptimizationStats
      → OptimizationSolution
  unfolding decode_for selected
  decode_selected_options none formulation indices backend_name stats = record {
    ok = false;
    assignments = [];
    unfulfilled_task_ids = [];
    backend_name = backend_name;
    stats = stats;
    error_message = "No optimization model was attached to the discrete-time formulation.";
  }
  decode_selected_options (some model) formulation indices backend_name stats =
      decode_for model (selected formulation.options indices) backend_name stats
