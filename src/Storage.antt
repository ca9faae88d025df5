-- ===== src/Storage.antt =====
-- storage/memoryStore.ts: the in-memory repositories. Each is a record of its maps, and each method
-- a function of it; a method that throws answers `err` and leaves the maps alone. `clone` makes the
-- stored copy and the caller's independent, which values are.
pub mod Orders
pub mod Refunds
pub mod Subscriptions
pub mod Events
pub mod Deposits
pub mod Sweeps
