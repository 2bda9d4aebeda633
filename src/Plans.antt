-- ===== src/Plans.antt =====
-- The catalogue of plans, after modules/platform/plans.
pub mod Flags
pub mod Defs
pub mod Names
pub mod Calls
pub mod Runs
pub mod Tests
