-- ===== src/Payments.antt =====
-- services/paymentService.ts with what it calls: services/plans.ts, services/subscriptionService.ts,
-- services/addressAllocator.ts and the enqueueing half of services/sweepService.ts.
pub mod Plans
pub mod Fulfilment
pub mod Deposits
pub mod Amounts
pub mod Service
