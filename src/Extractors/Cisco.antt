-- ===== src/Extractors/Cisco.antt =====
-- extractors/cisco/: the extractors that look for patterns in the dump.
pub mod Secrets
pub mod Snmp
pub mod Vpn
pub mod History
pub mod Firmware
pub mod Lina
pub mod Processes
pub mod Config
pub mod Routes
pub mod Connections
pub mod Acl
