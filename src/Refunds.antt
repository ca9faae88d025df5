-- ===== src/Refunds.antt =====
-- services/refundService.ts: refunds, and the ledger that they make together with the orders.
pub mod Service
pub mod Steps
pub mod Ledger
pub mod Refusals
pub mod Results
pub mod Notifications
