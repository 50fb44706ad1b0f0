-- ===== src/Parsers/Names.antt =====
-- src/parsers/names.rs: the answers to command 0xEE, for zones, outputs and partitions.
pub mod Types
pub mod Zones
pub mod Outputs
pub mod Partitions
pub mod Wrappers
pub mod Reads
pub mod ZoneReads
pub mod OutputReads
pub mod PartitionReads
pub mod Outcomes
mod Runs
