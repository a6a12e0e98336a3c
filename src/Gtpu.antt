-- ===== src/Gtpu.antt =====
-- internal/gtpu/forwarder.go: GTP-U packets and the tables that bind tunnels to sessions.
pub mod Control
pub mod Forwarder
pub mod Packet
