-- ===== src/Coordinator.antt =====
-- src/host/runCompletionCoordinator.ts: waited runs, from their registration to the settling of their
-- waits.
pub mod Postamble
pub mod State
pub mod Tasks
pub mod Machine
pub mod Counting
pub mod TaskWaits
pub mod Registering
pub mod Waiting
pub mod Escapes
pub mod PostambleBuilt
pub mod Drawn
mod Tests
