-- ===== src/Scheduler/Trace/Tests.antt =====
-- Three flows, of which the first runs the failing one as a subflow (src/scheduler.hpp,
-- src/flow/step/run_flow.hpp).
