-- ===== src/IndexedExact.antt =====
-- The branch-and-bound backend,
-- task_orchestrator/optimizer_backend/indexed_exact/indexed_exact_backend.cpp: its search state,
-- the choices at a node, the search, and what the search gives.
pub mod State
pub mod Candidates
pub mod Solve
pub mod Steps
pub mod Scores
pub mod Outcomes
pub mod Optimal
pub mod Solved
pub mod Chosen
pub mod Booked
pub mod Placed
pub mod Sound
pub mod Closed
pub mod Plans
