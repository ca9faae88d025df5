-- ===== src/Core.antt =====
-- core/*.ts: the order state machine, and money at the boundary.
pub mod Transitions
