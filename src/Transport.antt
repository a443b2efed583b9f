-- ===== src/Transport.antt =====
-- The requests of the manager client: ext-pi/src/manager/transport.ts.
pub mod Response
pub mod Keys
pub mod Post
pub mod Answer
pub mod Stream
pub mod Follower
pub mod Poll
pub mod Follow
pub mod Resume
pub mod Closing
pub mod Tests
