-- ===== src/Session.antt =====
-- One session of the manager client: ext-pi/src/manager/session.ts.
pub mod Fields
pub mod Capabilities
pub mod Listed
pub mod Supported
pub mod Service
pub mod Scope
pub mod Pages
pub mod Commands
pub mod Send
pub mod Reconciling
pub mod Sent
pub mod Evidence
pub mod Prepared
pub mod Resource
pub mod Live
pub mod Watched
pub mod Switched
pub mod Tests
