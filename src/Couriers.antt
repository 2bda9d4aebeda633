-- ===== src/Couriers.antt =====
-- The courier app, after modules/couriers.
pub mod App
pub mod Deposits
pub mod Roster
pub mod Staffing
pub mod Tasks
pub mod Sync
pub mod Tests
