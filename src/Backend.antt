-- ===== src/Backend.antt =====
-- The checks of a plan in src/backend/flashing.rs. `Validate` has its functions, `Header` and `Checked`
-- are about the bytes that they read.
pub mod Validate
pub mod Header
pub mod Checked
