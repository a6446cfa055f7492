-- ===== src/Lib.antt =====
-- The planning core of the task orchestrator: workflows of phases, processes and tasks, actors with
-- a capacity and windows of availability, a scheduler that assigns tasks to actors and times, and an
-- orchestrator that plans, dispatches, and follows what becomes of the tasks.
--
-- The parts, and the files that model them:
--   * Data: utils/include/utils/types.hpp, task_orchestrator/include/task_orchestrator/data and
--     task_orchestrator/src/data: the value types.
--   * Actor: task_orchestrator/src/core/actor.cpp.
--   * Workflow: task_orchestrator/src/core/workflow.cpp.
--   * Fsm: task_orchestrator/src/core/planner_fsm.cpp: `process_event` is one function over the
--     events, where the source has an overload for each. Boost.MSM is the parameter `Msm`, of which
--     the model uses that the machine starts in its initial state and follows the rows of its table.
--   * Strategy: task_orchestrator/include/task_orchestrator/strategy: the orders of tasks.
--   * Scheduler: task_orchestrator/src/core/scheduler.cpp. Types has its records and the registry;
--     Capacity has concurrent_demand_at, has_capacity_for_interval and earliest_start; Eligibility
--     has the tests of a task against an actor; Ranking has the candidates, compare_candidates and
--     select_best_candidate; Tables has what is computed before the loop; Order has
--     collect_ready_tasks and order_ready_tasks; Plan has the loop,
--     Scheduler::plan and plan_lazy.
--   * Orchestrator: task_orchestrator/src/core/orchestrator.cpp: the record `Impl` is the source's,
--     each public operation is a function on it under the source's name; those that plan and dispatch
--     are in Planning, and Calls makes sequences of them.
--   * Clock: utils/src/sim_clock.cpp. A callback is given by the requests that it makes of the clock;
--     run_until has fuel, since callbacks may go on scheduling events forever.
--   * Feed: control_plane/src/service/workflow_update_feed.cpp. Its operations run under a lock, so
--     each is a step of the state; a wait is given by the feed when it starts and when it ends.
--   * PlanDiff: control_plane/src/service/plan_diff.cpp, on the messages of protocol/proto.
--   * ConstraintIndex: task_orchestrator/src/optimizer/constraint_index.cpp. A pointer to an actor is
--     the actor with its place in the model's list.
--   * Optimizer: backend.hpp, backend_registry.cpp and workflow_optimizer.cpp of the optimizer in
--     task_orchestrator: Types has the options and solutions, Registry the registry of backends, and
--     Optimize the optimizer. A backend is given by its `solve`, which is none where it does not
--     return; error_message is an Option, none for a null pointer.
--   * DiscreteTime: task_orchestrator/src/optimizer/discrete_time_formulation.cpp: the module itself
--     has the start options, Formulation the constraints and the decoding. `llround` is a parameter.
--   * ControlPlane: control_plane/src: Messages has the messages of protocol/proto that it reads and
--     writes, Store the tables and the SQL statements of store/sqlite_workflow_store.cpp, Storage its
--     metrics and its pruning, Service the state and the operator's actions of
--     service/control_plan_service.cpp, Events its loop over the runtime's events, Streams its
--     submission and re-orchestration, and Calls what reads these to their end, manual intervention
--     and recovery. A stream is the list of its events. The runtime service, a reading of the clock and
--     the fingerprint of a request are parameters. Where SQLite throws, a call gives none. Counts and
--     versions, of 64 bits and growing by one, are natural numbers.
--   * IndexedExact: task_orchestrator/optimizer_backend/indexed_exact/indexed_exact_backend.cpp. State
--     has the search state and its score, Candidates the ready tasks and their candidates, Solve the
--     search. Outcomes has the complete choices of the search without its pruning, against which
--     the search is held. What the search passes by reference is the record `Incumbent`.
--   * Base has the helpers that these share, and Tests has concrete inputs.
-- The orchestrator calls the scheduler with its workflow, state and registry, keeps the schedule,
-- and moves its state machine by events; the scheduler asks the workflow for the ready phases and
-- their tasks, and a strategy for the order of the ready tasks.
--
-- How the code is rendered. Integers have no bound: overflow of `int` and of the 64-bit
-- integers is left out.
-- `double` is the interface `Doubles`, of which no law is used. A hash map is an association list,
-- in which an insertion takes the place of the key or comes last; a set is a list. Their order
-- stands for the order of iteration, which the source leaves open. `std::ranges::sort` is an
-- insertion sort that keeps the order of equal elements, which is one of the orders that the source
-- allows. A pointer that may be null is an Option; a mutable pointer into the registry is a value
-- that is written back. A loop is recursion on the list that it goes through, or, over times, on the
-- number of instants, which is known when the loop starts. The planning loop has fuel, one more
-- than there are tasks: every round but the last takes a task off. So has the
-- search of IndexedExact, whose calls each decide a task before they call themselves. Where the source reads a map by
-- `at`, the model has a default for a missing key, which does not occur: the ready tasks are those
-- that the strategy has ordered, and the remaining ids are those of the pending tasks.
--
-- Not modelled: the optimizer's backends for third-party solvers and the parser, the pages of
-- the control plane's lists and searches, the runtime service, the transports, the applications and the user interface, and what only prints.
pub mod Base
pub mod Data
pub mod Fsm
pub mod Actor
pub mod Workflow
pub mod Strategy
pub mod Scheduler
pub mod Orchestrator
pub mod Clock
pub mod Feed
pub mod ConstraintIndex
pub mod PlanDiff
pub mod ControlPlane
pub mod DiscreteTime
pub mod IndexedExact
pub mod Optimizer
pub mod Tests
