-- ===== src/Accessside.antt =====
-- internal/accessside: what the gateway answers on the access network. Both servers look sessions up
-- in the session manager and stale clients up among the tombstones of sessions in recovery.
pub mod Frames
pub mod Arp
pub mod Dhcp
