-- ===== src/TerminalQuery.antt =====
-- src/pty/terminalQueryResponder.ts: the queries of a program that the terminal answers.
pub mod Reply
pub mod Scanner
pub mod Chunks
pub mod Held
pub mod Unbounded
pub mod Sequences
pub mod Answers
pub mod Bounds
pub mod Capabilities
mod Tests
