-- ===== src/Duplex.antt =====
-- src/duplex.rs: the scheduler of one serial stream, which two senders share.
pub mod State
pub mod Steps
pub mod Accounts
pub mod Calls
pub mod Once
pub mod Turns
pub mod Written
pub mod Queued
pub mod Stream
pub mod Panics
pub mod Progress
pub mod Drain
