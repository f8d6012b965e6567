-- ===== src/Dashboard.antt =====
-- The readers of the router's answers in freenetic-dashboard-data.js.
pub mod Clients
pub mod Wan
pub mod Version
pub mod Diagnostics
mod Tests
