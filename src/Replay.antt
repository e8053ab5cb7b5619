-- ===== src/Replay.antt =====
-- The replay of an event log into a renderer backend, in slices.
pub mod Seq
pub mod Slices
pub mod SliceBounds
pub mod Backend
pub mod Resume
pub mod Positions
pub mod Continue
pub mod Whole
pub mod OneSlice
pub mod InSlices
pub mod Refinement
mod Tests
