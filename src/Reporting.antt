-- ===== src/Reporting.antt =====
-- The reporting component (src/reporting): events and their rendering.
pub mod Events
pub mod Requests
pub mod Renderer
pub mod AnyEvent
