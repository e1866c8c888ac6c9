-- ===== src/Core.antt =====
-- The core crate: identifiers, the access point connection, channels and the dealer.
pub mod SpotifyId
pub mod SpotifyUri
pub mod Codec
pub mod Dealer
pub mod Channel
pub mod Cache
