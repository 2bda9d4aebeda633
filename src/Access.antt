-- ===== src/Access.antt =====
-- Who may act for which tenant: modules/auth (jwt.strategy.ts, otp.service.ts), common/tenant,
-- common/guards and common/constants/permissions.constant.ts.
pub mod Permissions
pub mod Session
pub mod Guards
pub mod Scope
pub mod Otp
pub mod Tests
