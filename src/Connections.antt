-- ===== src/Connections.antt =====
-- freenetic-connections-core.js: the formats and checks of VPN connections.
pub mod Fields
pub mod Draft
pub mod Config
pub mod Lines
pub mod Tokens
pub mod Endpoints
pub mod Round
pub mod Read
pub mod Accepted
pub mod Names
mod Tests
pub mod Keys
pub mod Profiles
pub mod Status
