-- ===== src/Payouts.antt =====
-- modules/payouts/services/payouts.service.ts: a merchant asks for money, and the administration
-- approves, completes or rejects the request. The amounts are in cents, so the least payout,
-- 500 EGP, is 50000. `findAll` (filters and pages) and `toResponse` are not modelled.
mod Tests
pub mod Defs
pub mod Invariant
pub mod Writes
pub mod Safety
pub mod Runs
