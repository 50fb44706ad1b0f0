-- ===== src/Catalog.antt =====
-- src/zone_catalog.rs, src/output_catalog.rs and src/partition_catalog.rs: what the bytes of an answer
-- to command 0xEE say of a zone, an output and a partition. src/trouble_catalog.rs: the troubles.
pub mod Numbers
pub mod Zones
pub mod Outputs
pub mod Partitions
pub mod RoundTrip
pub mod Troubles
