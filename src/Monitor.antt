-- ===== src/Monitor.antt =====
-- The monitor model of ext-pi/src/monitor.ts: its selection and its folds. The lines that it renders
-- are not modelled.
pub mod Model
pub mod Selection
pub mod Tests
