-- ===== src/Optimizer.antt =====
-- The optimizer's interface: its types, and the registry of its backends.
pub mod Types
pub mod Registry
pub mod Optimize
pub mod Create
