-- ===== src/Audio.antt =====
-- The audio crate: what of a streamed file has been downloaded.
pub mod RangeSet
pub mod Fetch
