-- ===== src/Web.antt =====
-- src/web
pub mod Connections
pub mod Session
pub mod Fetcher
