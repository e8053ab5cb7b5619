-- ===== src/RunCompletion.antt =====
-- Waited runs: the sentinel that a run prints when it ends, and the echo of the postamble that prints
-- it, and how the host takes both out of the output of the terminal.
pub mod Sentinel
pub mod Scanner
pub mod Echo
pub mod Sanitizer
pub mod Strip
mod EchoScan
mod EchoMatch
mod EchoWhole
pub mod EchoParts
mod EchoSteps
mod EchoCarry
mod Stripped
pub mod SanitizerFeed
pub mod Sanitized
pub mod EchoRemoved
pub mod Matching
pub mod Reader
pub mod Scanning
pub mod ScanLoop
pub mod Chunks
pub mod Stream
pub mod Lossless
pub mod Registered
pub mod Detected
mod Tests
mod EchoTests
