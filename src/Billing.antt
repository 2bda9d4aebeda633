-- ===== src/Billing.antt =====
-- Manual invoices and their export, after modules/platform/billing.
pub mod Csv
pub mod RoundTrip
pub mod Invoices
pub mod Amounts
pub mod Tests
