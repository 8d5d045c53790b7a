-- ===== src/Appliances.antt =====
-- core/backends/appliances/: the detectors of appliance platforms and their registry.
pub mod Pattern
pub mod Chunks
pub mod Scan
pub mod CiscoIos
pub mod CiscoIosXe
pub mod CiscoAsa
pub mod Registry
pub mod Best
pub mod Threshold
mod Tests
