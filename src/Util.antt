-- ===== src/Util.antt =====
-- src/util
pub mod AsyncQueue
pub mod Regex
pub mod Uri
