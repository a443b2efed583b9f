-- ===== src/Events.antt =====
-- The event stream of the manager client: ext-pi/src/manager/events.ts.
pub mod Failure
pub mod Syntax
pub mod Blocks
pub mod Parser
pub mod Scan
pub mod Bytewise
pub mod Chunks
pub mod Bounds
pub mod Resume
pub mod Records
pub mod Roundtrip
pub mod Accepted
pub mod Tests
