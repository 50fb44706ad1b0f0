-- ===== src/Catalog/Outputs.antt =====
-- src/output_catalog.rs: the functions of outputs.
pub mod Types
pub mod Codes
pub mod Bytes
pub mod Entries
pub mod Modes
pub mod Control
pub mod Agreement
