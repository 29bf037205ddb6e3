-- ===== src/Flow.antt =====
-- src/flow
pub mod Descriptors
pub mod FilePath
pub mod Yaml
