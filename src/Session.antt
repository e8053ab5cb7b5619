-- ===== src/Session.antt =====
-- Sessions: the lifecycle policy table and the host's record of one session.
pub mod Number
pub mod Status
pub mod State
pub mod Lifecycle
mod Tests
