-- ===== src/Worker.antt =====
-- `Service::worker` of src/server.rs: the loop that owns the serial port of one device.
pub mod State
pub mod Idle
pub mod Jobs
pub mod Held
pub mod Steady
pub mod Passes
pub mod Taken
pub mod Exclusive
pub mod Ended
pub mod Released
pub mod Closed
