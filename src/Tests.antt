-- ===== src/Tests.antt =====
-- Runs of the model at concrete inputs, with the crates it calls given by concrete functions.
pub mod Bits
pub mod Bitmaps
pub mod Worlds
pub mod Blocks
pub mod Tables
pub mod Sessions
