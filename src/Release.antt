-- ===== src/Release.antt =====
-- The releases of freenetic-dashboard-data.js: their tags and the plan of an update.
pub mod Numbers
pub mod Tags
pub mod Plan
pub mod Candidates
mod Tests
