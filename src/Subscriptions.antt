-- ===== src/Subscriptions.antt =====
-- modules/platform/subscriptions: the subscriptions of tenants to plans.
pub mod Defs
pub mod Live
pub mod Runs
pub mod Tests
