-- ===== src/Session.antt =====
-- internal/session: sessions of subscribers, with the tables that find them.
pub mod Types
pub mod Mac
pub mod Manager
pub mod Recovery
pub mod AuthCache
pub mod Operations
pub mod States
pub mod Expiry
