-- ===== src/Reducer/Journal.antt =====
-- Journals: the folds of `reduceEvent` that ext-pi/src/supervisor.ts makes of a run's events.
pub mod Frame
pub mod Sequence
pub mod Occurrences
pub mod Acks
pub mod Success
