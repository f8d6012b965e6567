-- ===== src/Multiwan.antt =====
-- freenetic-multiwan-data.js: the model of the mwan3 configuration and the planner of its modes.
pub mod Values
pub mod Metric
pub mod Plan
pub mod Detect
pub mod Traffic
pub mod Runtime
pub mod Model
mod Tests
