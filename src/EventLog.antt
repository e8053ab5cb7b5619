-- ===== src/EventLog.antt =====
-- The event log: its records and codec, the host's writer, and what both promise.
pub mod Record
pub mod Codec
pub mod Store
pub mod Append
pub mod Content
pub mod Open
pub mod Close
mod Invariant
mod Rollback
mod Settle
pub mod Durable
pub mod Reading
mod Scanned
pub mod Stop
mod Kept
mod Stoppable
mod Acknowledged
mod Opening
mod Stored
mod StoredRuns
mod Printed
mod Reopened
pub mod Reserve
pub mod Landed
mod Tests
mod OpenTests
