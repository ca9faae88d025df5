-- ===== src/Webhooks.antt =====
-- webhooks/outbound.ts: the dispatcher of outbound events, with its store.
pub mod Store
pub mod Dispatcher
pub mod Delivery
pub mod Due
