-- ===== src/Catalog/Troubles.antt =====
-- src/trouble_catalog.rs: what the catalog says of the troubles.
pub mod Keys
pub mod Addresses
pub mod Entries
pub mod Described
mod Runs
