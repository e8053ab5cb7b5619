-- ===== src/LineDiff.antt =====
-- src/util/lineDiff.ts: the line diff of two screens.
pub mod Diff
pub mod Sides
pub mod Middle
mod Tests
