-- ===== src/Scheduler/Tests.antt =====
-- A run of two flows on the sample environment (src/scheduler.hpp): one succeeds and one fails.
use cliot.Prelude.{◌≡◌, ◌≢◌, refl, [], arith}
use cliot.Exec.{halts, waits}
use cliot.Exec.Triple.{Post}
use cliot.Runner.Callbacks.Local.{NotFlow}
use cliot.Samples.Hosts.{host, world, two_flows}
use cliot.Prelude.{All}
use cliot.Prelude.{◌⊎◌}
use cliot.Samples.Directories.{site, entries}
use cliot.Scheduler.Exit.{AllJudged, exit_code-run}
use cliot.Scheduler.{run_all, run, exit_code}
use cliot.Scheduler.Log.{Log, Broken}
use cliot.Scheduler.Logged.{run_all-Log}
use cliot.Reporting.Requests.{reported, ShowAll}
use cliot.Scheduler.Sent.{run_all-ShowAll}
use cliot.Scheduler.Blame.{NamesWhy, run_all-NamesWhy}
use cliot.Scheduler.Links.{IsFull, run_all-IsFull, run_all-ne-waits}
use cliot.Scheduler.Verdicts.{verdicts, names, StoppedEarly, run_all-verdicts}

run_all-IsFull_example :
    Post
      (λ _ v. IsFull v.pool)
      (λ _ v. IsFull v.pool)
      (λ _. Unit {0})
      (run_all host 3 two_flows world).0
      (run_all host 3 two_flows world).1
run_all-IsFull_example = run_all-IsFull host 3 two_flows world refl

run_all-ne-waits_example : (run_all host 3 two_flows world).0 ≢ halts waits
run_all-ne-waits_example =
    run_all-ne-waits host 3 two_flows world (omega arith) (λ ws. refl) (λ clock ws e. cc) refl

run_all-verdicts_example :
    Post
      (λ r v. (r ≡ 0) × (verdicts v.events ≡ names two_flows))
      (λ x v. NotFlow x × StoppedEarly host [] two_flows v)
      (λ _. Unit {0})
      (run_all host 3 two_flows world).0
      (run_all host 3 two_flows world).1
run_all-verdicts_example = run_all-verdicts host 3 two_flows world refl

run_all-NamesWhy_example :
    Post
      (λ _ v. All NamesWhy v.events)
      (λ _ v. All NamesWhy v.events)
      (λ _. Unit {0})
      (run_all host 3 two_flows world).0
      (run_all host 3 two_flows world).1
run_all-NamesWhy_example = run_all-NamesWhy host 3 two_flows world refl

exit_code-run_example :
    Post
      (λ r v. ((r ≡ 0) × AllJudged site entries "" "o" world v) ⊎ (r ≡ 1))
      (λ _ _. ⊥)
      (λ _. Unit {0})
      (exit_code site (run site entries 3 "" "o") world).0
      (exit_code site (run site entries 3 "" "o") world).1
exit_code-run_example = exit_code-run site entries 3 "" "o" world refl

run_all-Log_example :
    Post
      (λ _ v. Log two_flows v.events)
      (λ _ v. Broken two_flows v.events)
      (λ _. Unit {0})
      (run_all host 3 two_flows world).0
      (run_all host 3 two_flows world).1
run_all-Log_example = run_all-Log host 3 two_flows world refl

run_all-ShowAll_example :
    Post
      (λ _ v. ShowAll host.json (reported v.events) v.writes)
      (λ _ v. ShowAll host.json (reported v.events) v.writes)
      (λ _. Unit {0})
      (run_all host 3 two_flows world).0
      (run_all host 3 two_flows world).1
unfolding cliot.Web.Connections.make_pool
run_all-ShowAll_example = run_all-ShowAll host 3 two_flows world refl refl refl
