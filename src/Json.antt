-- ===== src/Json.antt =====
-- The lossless JSON values of the manager client: ext-pi/src/manager/json.ts.
pub mod Value
pub mod Number
pub mod Integer
pub mod Equality
pub mod Encode
pub mod Tests
