-- ===== src/Network.antt =====
-- freenetic-network.js: the sections that Freenetic owns in the router's configuration.
pub mod Uci
pub mod Guest
pub mod Address
pub mod Ipv6
pub mod Store
mod Tests
