-- ===== src/Auth.antt =====
-- Registration, log in and refresh tokens, after modules/auth/services/auth.service.ts.
pub mod Defs
pub mod Issue
pub mod Refresh
pub mod Runs
pub mod Tests
