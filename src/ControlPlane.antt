-- ===== src/ControlPlane.antt =====
-- The durable control plane: its messages, its SQLite store and its service.
pub mod Messages
pub mod Store
pub mod Storage
pub mod Service
pub mod Events
pub mod Streams
pub mod Calls
pub mod Logs
pub mod Persisted
pub mod Recorded
pub mod Consistent
pub mod Submitted
pub mod Actions
pub mod Refused
pub mod Replayed
pub mod Pruned
pub mod Intervened
