-- ===== src/Tests.antt =====
-- Concrete inputs for every part of the development, and its theorems applied to them.
pub mod Samples
pub mod Parts
pub mod Plans
pub mod Runs
pub mod Services
pub mod Search
pub mod Control
pub mod Formulations
