-- ===== src/Parsers.antt =====
-- src/parsers: from frames to data.
pub mod Bits
pub mod Zones
pub mod Partitions
pub mod Outputs
pub mod Temperature
pub mod Versions
pub mod Clock
pub mod Names
mod Runs
