-- ===== src/DiscreteTime.antt =====
-- task_orchestrator/src/optimizer/discrete_time_formulation.cpp, and discrete_time_formulation.hpp beside
-- its headers: the start options of an optimizer's tasks and the constraints between them. A loop over
-- the times up to another is a recursion on how many there are.
pub mod Formulation
pub mod Options
pub mod Complete
pub mod Exact
use task_orchestrator.Base.{
  ℕ, zero, suc, ◌+◌, ltb, ℤ, pos, ◌+ℤ◌, ◌-ℤ◌, ◌*ℤ◌, eqb, eqb_ℤ, ltb_ℤ, max_ℤ, min_ℤ, lex, rounds_to,
  String, ◌==◌, Bool, true, false, not, ◌||◌, ◌&&◌, List, [], ◌∷◌, ◌++◌, map, length, Option, none,
  some, contains, lookup, emplace, all_of, any_of, lt_id, add_id, sort_by, or_default,
  if◌then◌else◌,
}
use task_orchestrator.Data.{Time, Doubles, AvailabilityWindow}
use task_orchestrator.ConstraintIndex.{
  OptimizerActor, OptimizerTask, OptimizationModel, ConstraintIndex, ActorRef,
  eligible_actors_for_task,
}
use task_orchestrator.Optimizer.Types.{
  OptimizationOptions, OptimizedAssignment, OptimizationStats, OptimizationSolution,
}

pub record DiscreteOption : Type 0 where
  pub option_index : ℕ
  pub task_index : ℕ
  pub actor_index : ℕ
  pub task_id : String
  pub actor_id : String
  pub start_time : Time
  pub end_time : Time
  pub demand : ℤ
  pub objective_coefficient : ℤ

pub record DiscreteTaskDecision : Type 0 where
  pub task_index : ℕ
  pub task_id : String
  pub required : Bool
  pub option_indexes : List ℕ

pub record ActorTimeSlotConstraint : Type 0 where
  pub actor_index : ℕ
  pub actor_id : String
  pub time : Time
  pub capacity : ℤ
  pub option_indexes : List ℕ

pub record DependencyConstraint : Type 0 where
  pub predecessor_task_index : ℕ
  pub successor_task_index : ℕ

pub record MutualExclusionConstraint : Type 0 where
  pub first_task_index : ℕ
  pub second_task_index : ℕ

-- `std::map<std::pair<size_t, Time>, std::vector<size_t>>`, in the order of its keys.
abbrev pub SlotMap : Type 0
SlotMap = List (ℕ × Time × List ℕ)

abbrev pub slot_before : ℕ → Time → ℕ → Time → Bool
slot_before a t b u = if ltb a b then true else eqb a b && ltb_ℤ t u

-- `slot_option_indexes[{actor_index, time}].push_back(option_index)`.
unfoldable pub push_slot : ℕ → Time → ℕ → SlotMap → SlotMap
push_slot a t option [] = (a, t, option ∷ []) ∷ []
push_slot a t option ((b, u, options) ∷ slots) =
    let rest = push_slot a t option slots in
    if eqb a b && eqb_ℤ t u
    then (b, u, options ++ option ∷ []) ∷ slots
    else if slot_before a t b u
    then (a, t, option ∷ []) ∷ (b, u, options) ∷ slots
    else (b, u, options) ∷ rest

-- An option in each of n slots from a time on.
unfoldable pub push_slots : ℕ → ℕ → Time → ℕ → SlotMap → SlotMap
unfolding push_slot
push_slots zero a t option slots = slots
push_slots (suc n) a t option slots =
    push_slots n a (t +ℤ pos 1) option (push_slot a t option slots)

-- What the loops build, but for the constraints between tasks.
pub record Building : Type 0 where
  pub options : List DiscreteOption
  pub option_indexes : List ℕ
  pub horizon_end : Time
  pub slot_option_indexes : SlotMap

abbrev pub scaled_double_factor : ℤ
scaled_double_factor = pos 1000

abbrev pub unknown_distance_padding : ℤ
unknown_distance_padding = pos 1

-- The largest of the distances, from one of them on.
abbrev pub farthest : Time → List (String × Time) → Time
farthest so_far [] = so_far
farthest so_far ((id, distance) ∷ entries) = farthest (max_ℤ so_far distance) entries

abbrev pub fallback_distance : List (String × Time) → Time
fallback_distance [] = pos 0
fallback_distance ((id, distance) ∷ entries) = farthest distance entries +ℤ unknown_distance_padding

abbrev pub at_most : Option Time → Time → Time
at_most none t = t
at_most (some limit) t = min_ℤ t limit

abbrev pub tardiness_of : Option Time → Time → Time
tardiness_of none end = pos 0
tardiness_of (some deadline) end = max_ℤ (pos 0) (end -ℤ deadline)

abbrev pub minus_duration : Time → Option Time → Option Time
minus_duration duration none = none
minus_duration duration (some deadline) = some (deadline -ℤ duration)

module _ {D : Type 0} where
  unfoldable pub task_capabilities_supported : OptimizerTask D → OptimizerActor D → Bool
  task_capabilities_supported task actor =
      all_of (λ capability. contains capability actor.capabilities) task.required_capabilities

  unfoldable pub fallback_distance_for_task : OptimizerTask D → Time
  fallback_distance_for_task task = fallback_distance task.actor_distances

  unfoldable pub latest_feasible_start : OptimizerTask D → AvailabilityWindow → Option Time
  latest_feasible_start task window =
      if ltb_ℤ window.end task.duration
      then none
      else some (
          at_most (minus_duration task.duration task.deadline)
            (at_most task.latest_start_time (window.end -ℤ task.duration)))

  unfoldable pub backend_model_supported : OptimizationModel D → Bool
  backend_model_supported model =
      not (any_of (λ (task : OptimizerTask D). task.preemptible) model.tasks)

  -- The place of the first actor of an id.
  abbrev pub actor_place : String → ℕ → List (OptimizerActor D) → Option ℕ
  actor_place id place [] = none
  actor_place id place (actor ∷ actors) =
      if actor.id == id then some place else actor_place id (suc place) actors

module _ {D : Type 0} (doubles : Doubles D) (llround : D → ℤ)
    (options : OptimizationOptions D) where
  abbrev pub scale_double : D → ℤ
  scale_double value =
      llround (Doubles.mul doubles value (Doubles.of_int doubles scaled_double_factor))

  unfoldable pub option_objective_coefficient : OptimizerTask D → OptimizerActor D → Time → Time → ℤ
  unfolding fallback_distance_for_task
  option_objective_coefficient task actor start end =
      let weights = options.objective in
      let distance =
        or_default (fallback_distance_for_task task) (lookup actor.id task.actor_distances) in
      let tardiness = tardiness_of task.deadline end in
      let cost = scale_double (
        Doubles.mul doubles actor.execution_cost_per_unit (Doubles.of_int doubles task.duration)) in
      let coefficient =
        weights.fulfilled_task_weight
        +ℤ task.priority *ℤ weights.priority_weight
        +ℤ distance *ℤ weights.travel_distance_weight
        +ℤ tardiness *ℤ weights.tardiness_weight
        +ℤ cost *ℤ weights.execution_cost_weight
        -ℤ scale_double task.tardiness_cost_per_unit *ℤ tardiness
        -ℤ scale_double task.early_start_bonus *ℤ start in
      if contains actor.id task.preferred_actor_ids
      then coefficient +ℤ weights.preferred_actor_weight
      else coefficient

  module _ (model : OptimizationModel D) (task : OptimizerTask D) (task_index : ℕ) where
    abbrev pub option_of : ℕ → OptimizerActor D → ℕ → Time → DiscreteOption
    option_of option_index actor actor_index start = record {
      option_index = option_index;
      task_index = task_index;
      actor_index = actor_index;
      task_id = task.id;
      actor_id = actor.id;
      start_time = start;
      end_time = start +ℤ task.duration;
      demand = task.demand;
      objective_coefficient =
          option_objective_coefficient task actor start (start +ℤ task.duration);
    }

    -- The body of the loop over the start times.
    unfoldable pub push_option : OptimizerActor D → ℕ → Time → Building → Building
    unfolding option_objective_coefficient push_slots
    push_option actor actor_index start b =
        let option_index = length b.options in
        let end = start +ℤ task.duration in
        record {
          options = b.options ++ option_of option_index actor actor_index start ∷ [];
          option_indexes = b.option_indexes ++ option_index ∷ [];
          horizon_end = max_ℤ b.horizon_end end;
          slot_option_indexes =
              push_slots (rounds_to start (end -ℤ pos 1)) actor_index start option_index
                b.slot_option_indexes;
        }

    -- The loop over n start times from one on.
    unfoldable pub push_starts : ℕ → OptimizerActor D → ℕ → Time → Building → Building
    unfolding push_option
    push_starts zero actor actor_index start b = b
    push_starts (suc n) actor actor_index start b =
        push_starts n actor actor_index (start +ℤ pos 1) (push_option actor actor_index start b)

    unfoldable pub push_window : OptimizerActor D → ℕ → AvailabilityWindow → Building → Building
    unfolding push_starts latest_feasible_start
    push_window actor actor_index window b =
        let first = max_ℤ window.start task.release_time in
        elim (latest_feasible_start task window) [
          | none ↦ b
          | some last ↦
              if ltb_ℤ last first
              then b
              else push_starts (rounds_to first last) actor actor_index first b
        ]

    unfoldable pub push_windows :
        OptimizerActor D → ℕ → List AvailabilityWindow → Building → Building
    unfolding push_window
    push_windows actor actor_index [] b = b
    push_windows actor actor_index (window ∷ windows) b =
        push_windows actor actor_index windows (push_window actor actor_index window b)

    abbrev pub is_unfit : OptimizerActor D → Bool
    is_unfit actor =
        ltb_ℤ actor.capacity task.demand || not (task_capabilities_supported task actor)

    unfoldable pub push_actor : ActorRef D → Building → Building
    unfolding task_capabilities_supported push_windows
    push_actor (place, actor) b =
        if is_unfit actor then b else elim (actor_place actor.id 0 model.actors) [
          | none ↦ b
          | some actor_index ↦ push_windows actor actor_index actor.availability_windows b
        ]

    unfoldable pub push_actors : List (ActorRef D) → Building → Building
    unfolding push_actor
    push_actors [] b = b
    push_actors (actor ∷ actors) b = push_actors actors (push_actor actor b)
