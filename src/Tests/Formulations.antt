-- ===== src/Tests/Formulations.antt =====
-- The discrete-time formulation of a small shop.
use task_orchestrator.Base.{
  ℤ, pos, ◌+ℤ◌, ◌-ℤ◌, ◌≡◌, refl, inl, inr, true, [], length, Any, In, arith, lookup, emplace,
}
use task_orchestrator.Data.{AvailabilityWindow}
use task_orchestrator.ConstraintIndex.{new_index, OptimizerTask, eligible_actors_for_task}
use task_orchestrator.DiscreteTime.{task_capabilities_supported}
use task_orchestrator.DiscreteTime.Formulation.{
  DiscreteTimeFormulation, build_discrete_time_formulation,
}
use task_orchestrator.DiscreteTime.Options.{AreOptions, build_discrete_time_formulation-AreOptions}
use task_orchestrator.DiscreteTime.Complete.{IsFor}
use task_orchestrator.DiscreteTime.Exact.{build_discrete_time_formulation-IsFor}
use task_orchestrator.Tests.Samples.{whole_numbers}
use task_orchestrator.Tests.Search.{bench, piece, defaults, shop, shop_index}

abbrev shop_formulation : DiscreteTimeFormulation
shop_formulation = build_discrete_time_formulation whole_numbers (λ n. n) defaults shop shop_index

abbrev drill : OptimizerTask ℤ
drill = piece "drill" (pos 3) [] []

abbrev day : AvailabilityWindow
day = record { start = pos 0; end = pos 10 }

build_discrete_time_formulation-AreOptions_example :
    AreOptions whole_numbers (λ n. n) defaults shop shop_index shop_formulation.options
build_discrete_time_formulation-AreOptions_example =
    build_discrete_time_formulation-AreOptions whole_numbers (λ n. n) defaults shop shop_index

bench_eligible : In (0, bench) (eligible_actors_for_task shop_index drill)
unfolding eligible_actors_for_task lookup new_index emplace
bench_eligible = inl refl

bench_capable : task_capabilities_supported drill bench ≡ true
unfolding task_capabilities_supported
bench_capable = refl

build_discrete_time_formulation-IsFor_example :
    Any (IsFor whole_numbers (λ n. n) defaults shop drill bench (pos 3)) shop_formulation.options
unfolding ◌+ℤ◌
build_discrete_time_formulation-IsFor_example =
    build_discrete_time_formulation-IsFor whole_numbers (λ n. n) defaults shop drill (0, bench)
      (pos 3) (inl refl) (omega arith) bench_capable (omega arith) day (inl refl)
      (record {
        in_window = (omega arith, omega arith);
        released = omega arith;
        by_latest_start = refl;
        by_deadline = refl;
      })
      shop_index bench_eligible (inr (inr (inl refl)))

-- Three tasks with eight starts each, in nine slots of the one actor.
shop_options : length shop_formulation.options ≡ 24
unfolding build_discrete_time_formulation lookup new_index emplace ◌-ℤ◌ ◌+ℤ◌
shop_options = refl

shop_slots : length shop_formulation.actor_time_slots ≡ 9
unfolding build_discrete_time_formulation lookup new_index emplace ◌-ℤ◌ ◌+ℤ◌
shop_slots = refl
