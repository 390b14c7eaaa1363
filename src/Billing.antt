-- ===== src/Billing.antt =====
-- The billing module (apps/api/src/modules/billing).
pub mod Shares
pub mod Flow
pub mod Tables
pub mod Invoices
pub mod Fees
pub mod Invoicing
pub mod Payments
pub mod Approvals
pub mod Ledger
mod Tests
