-- ===== src/RenderWait.antt =====
-- src/renderWait/matcher.ts: waits for a screen.
pub mod Quantifiers
pub mod Matcher
pub mod Snapshot
mod Meets
pub mod Matched
pub mod Syntax
pub mod Passing
pub mod PassingQuantifiers
pub mod Nested
mod Tests
