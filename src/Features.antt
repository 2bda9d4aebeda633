-- ===== src/Features.antt =====
-- Feature flags of tenants, after modules/platform/feature-flags.
pub mod Defs
pub mod Effect
pub mod Tenants
pub mod Tests
