-- ===== src/Scheduler/Isolated/Tests.antt =====
-- Two flows from a state with some store (src/scheduler.hpp).
use cliot.World.{with_store}
use cliot.Samples.Tree.{Tree}
use cliot.Samples.Hosts.{host, world, two_flows}
use cliot.Scheduler.{run_all}
use cliot.Scheduler.Isolated.{SameEnd, run_all_isolated}

abbrev leftover : Tree
leftover = Tree.text "left over"

run_all_isolated_example :
    SameEnd host
      (run_all host 3 two_flows (with_store world leftover))
      (run_all host 3 two_flows world)
run_all_isolated_example = run_all_isolated host 3 two_flows world leftover
