-- ===== src/Samples.antt =====
-- Concrete data for the tests.
pub mod Tree
pub mod Values
pub mod Exchanges
pub mod Hosts
pub mod Directories
pub mod Styles
pub mod Scripts
