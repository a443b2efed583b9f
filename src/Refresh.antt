-- ===== src/Refresh.antt =====
-- The refresh coordination of one client session: ext-pi/src/manager/refresh.ts.
pub mod Coordinator
pub mod Freshness
pub mod Backoff
pub mod Reconcile
pub mod Tests
