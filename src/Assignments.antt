-- ===== src/Assignments.antt =====
-- modules/assignments: which courier carries which shipment.
pub mod Defs
pub mod Active
pub mod Runs
pub mod Capacity
pub mod Tests
