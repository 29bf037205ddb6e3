-- ===== src/Runner.antt =====
-- FlowRunner (src/runner.hpp) and the steps that it runs.
pub mod Callbacks
pub mod Templates
pub mod Steps
pub mod Flows
mod Tests
