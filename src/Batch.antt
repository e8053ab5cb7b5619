-- ===== src/Batch.antt =====
-- The batch command: an ordered plan of steps driven through one session.
pub mod Step
pub mod Driver
pub mod Execute
pub mod Outcome
pub mod Refinement
pub mod Shape
pub mod Partial
pub mod Follows
pub mod Flush
mod Tests
