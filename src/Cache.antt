-- ===== src/Cache.antt =====
-- src/client_internal.rs: how a parsed frame changes the cache, and which events it sends. The
-- source's loops over a mask differ only in the fields and the event that they name: such a set is
-- a `Slot` here. The event channel is the list of the events sent, in order. A poisoned lock, which
-- needs a panic elsewhere, is not modelled, so these functions do not fail.
pub mod Items
pub mod Slots
pub mod Updates
pub mod Agreement
pub mod Status
pub mod Troubles
mod Runs
