-- ===== src/Store.antt =====
-- The state of the daemon, src/server.rs: the event log of a device and the operations.
pub mod Events
pub mod Log
pub mod Operations
pub mod Retention
pub mod Names
pub mod Submit
pub mod Admit
pub mod Whole
pub mod Keeps
pub mod Submitted
pub mod Replays
pub mod Completion
pub mod Completed
pub mod Lanes
pub mod Reconnect
pub mod Discovery
pub mod Stocked
pub mod Start
pub mod Reading
