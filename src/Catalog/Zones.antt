-- ===== src/Catalog/Zones.antt =====
-- src/zone_catalog.rs: the reactions of zones.
pub mod Types
pub mod Codes
pub mod Bytes
pub mod Entries
pub mod Kinds
