-- ===== src/Resources.antt =====
-- The decoders of the manager's resources: ext-pi/src/manager/resources.ts, as far as the receipts of
-- commands and captures.
pub mod Fields
pub mod Timestamp
pub mod Operation
pub mod Evidence
pub mod Receipt
pub mod Accepted
pub mod Roundtrip
pub mod Capture
pub mod Tests
