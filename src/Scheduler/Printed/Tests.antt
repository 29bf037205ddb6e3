-- ===== src/Scheduler/Printed/Tests.antt =====
-- The prints of a run of the sample flows (src/scheduler.hpp).
use cliot.Prelude.{refl, true, All, arith}
use cliot.Exec.Triple.{Post}
use cliot.Reporting.Renderer.{print_events}
use cliot.Samples.Hosts.{host, world, two_flows}
use cliot.Samples.Values.{sample}
use cliot.Samples.Styles.{styles, styles-FmtLaws}
use cliot.Scheduler.{run_all}
use cliot.Scheduler.Printed.{ShownIn, run_all-ShownIn}

run_all-ShownIn_example :
    Post
      (λ _ v. All (ShownIn (print_events styles sample true 1 v.events)) v.events)
      (λ _ v. All (ShownIn (print_events styles sample true 1 v.events)) v.events)
      (λ _. Unit {0})
      (run_all host 3 two_flows world).0
      (run_all host 3 two_flows world).1
run_all-ShownIn_example =
    run_all-ShownIn styles styles-FmtLaws host 1 (omega arith) 3 two_flows world refl
