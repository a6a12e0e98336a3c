-- ===== src/Diameter.antt =====
-- internal/diameter: the Diameter messages of the STa client.
pub mod Avp
pub mod Message
