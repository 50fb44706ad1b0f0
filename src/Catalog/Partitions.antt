-- ===== src/Catalog/Partitions.antt =====
-- src/partition_catalog.rs: the types of partitions, and the bit fields that describe one.
pub mod Types
pub mod Options
pub mod Timer
pub mod Dependent
