-- ===== src/Gtp.antt =====
-- internal/gtp: the GTPv2-C messages, information elements and sequence numbers of the S2a client.
pub mod Ie
pub mod Message
pub mod Sequence
pub mod Client
