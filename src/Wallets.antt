-- ===== src/Wallets.antt =====
-- modules/wallets: the fees of a delivery, the transactions of a wallet with their optimistic
-- locking, and the credit of a delivered shipment.
pub mod Fees
pub mod Locking
pub mod Versions
pub mod Credit
pub mod Ledger
pub mod Tests
