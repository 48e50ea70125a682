-- ===== src/Plan.antt =====
-- src/plan.rs. Prepare models `FlashPlan::prepare` and `PreparedPlan::validate_capacity`, Offset
-- models `parse_offset`; Segments and Layout hold proofs.
pub mod Types
pub mod Offset
pub mod Prepare
pub mod Segments
pub mod Layout
