-- ===== src/Application.antt =====
-- src/application.rs: sessions with an application on a device, over frames.
pub mod Json
pub mod Depth
pub mod Session
pub mod Send
pub mod Answers
pub mod Blocking
pub mod Asked
