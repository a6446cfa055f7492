-- ===== src/Scheduler.antt =====
-- task_orchestrator/include/task_orchestrator/core/scheduler.hpp and
-- task_orchestrator/src/core/scheduler.cpp: the greedy planner. The children follow the order of
-- the source: its types, the capacity of an actor, who may do a task, how candidates are compared,
-- the tables at the start, and the planning loop.
pub mod Types
pub mod Capacity
pub mod Eligibility
pub mod Ranking
pub mod Tables
pub mod Order
pub mod Plan
pub mod Selection
pub mod Found
pub mod Invariants
pub mod Ends
pub mod Allowed
pub mod Placement
pub mod Booking
pub mod Load
pub mod Dependencies
pub mod Exclusion
pub mod Pending
