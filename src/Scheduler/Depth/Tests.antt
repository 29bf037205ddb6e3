-- ===== src/Scheduler/Depth/Tests.antt =====
-- The sample flows run no other flows (src/scheduler.hpp).
use cliot.Prelude.{ℕ, String, ◌≢◌, arith}
use cliot.Exec.{halts, too_deep}
use cliot.Runner.Flows.Framed.{script_at}
use cliot.Runner.Flows.Ranks.{Fits, IsRanked}
use cliot.Samples.Scripts.{Holds-script_at}
use cliot.Json.{Holds}
use cliot.Samples.Hosts.{host, world, two_flows}
use cliot.Scheduler.{run_all}
use cliot.Scheduler.Depth.{run_all-ne-too_deep}

abbrev one : String → ℕ
one path = 1

host-IsRanked : IsRanked host one
host-IsRanked path steps e =
    let p : Holds (Fits one 1 path) (script_at host path) =
      Holds-script_at (Fits one 1 path) path (tt, (tt, tt)) (tt, (tt, tt)) in
    rw e at p

run_all-ne-too_deep_example : (run_all host 1 two_flows world).0 ≢ halts too_deep
run_all-ne-too_deep_example =
    run_all-ne-too_deep host one host-IsRanked 1 two_flows world (omega arith, (omega arith, tt))
