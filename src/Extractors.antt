-- ===== src/Extractors.antt =====
-- extractors/: the bodies of extractors that scan the dump.
pub mod Chunked
pub mod Keys
pub mod Network
pub mod Text
pub mod Keyed
pub mod Patterns
pub mod Cisco
pub mod Modules
pub mod Process
