-- ===== src/Support.antt =====
-- Impersonation by platform staff, after modules/platform/support.
pub mod Defs
pub mod Sessions
pub mod Runs
pub mod Tokens
pub mod Tests
