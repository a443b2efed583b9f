-- ===== src/Reducer.antt =====
-- ext-pi/src/reducer.ts and the snapshot types of ext-pi/src/types.ts.
pub mod State
pub mod Fields
pub mod Progress
pub mod Lists
pub mod Attempts
pub mod Occurrences
pub mod Recovery
pub mod Dispatches
pub mod Controls
pub mod Runs
pub mod Envelope
pub mod Apply
pub mod Scenarios
pub mod Inversions
pub mod Acks
pub mod Accepted
pub mod Lifecycle
pub mod Bounds
pub mod Events
pub mod Invariant
pub mod Journal
pub mod Tests
