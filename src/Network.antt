-- ===== src/Network.antt =====
-- internal/network: the detection of the uplink, the network plan and the DHCP probe.
pub mod Validate
pub mod Address
pub mod Dhcp
pub mod Routes
pub mod Sources
pub mod Plan
pub mod Detect
pub mod RouterOs
