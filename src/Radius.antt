-- ===== src/Radius.antt =====
-- internal/radius: the RADIUS server, of which the registry of access points is modelled.
pub mod ApRegistry
