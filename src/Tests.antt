-- ===== src/Tests.antt =====
-- Runs of the models on concrete inputs, which the theorems are applied to.
pub mod Gtp
pub mod Client
pub mod Diameter
pub mod Gtpu
pub mod Ipam
pub mod Radius
pub mod Session
pub mod Recovery
pub mod Accessside
