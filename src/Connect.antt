-- ===== src/Connect.antt =====
-- The connect crate: the player state that is shared with other devices.
pub mod ShuffleVec
pub mod Track
pub mod State
pub mod Update
pub mod Resolver
