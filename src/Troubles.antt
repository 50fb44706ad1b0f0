-- ===== src/Troubles.antt =====
-- src/parsers/system.rs: the frames of troubles.
pub mod Types
pub mod Custom
pub mod Commands
pub mod Rules
pub mod Decode
pub mod Parts
pub mod Frames
pub mod Outcomes
mod Runs
