-- ===== src/Scheduler/Turns/Tests.antt =====
-- The sample flows have neither subflows nor blocks (src/scheduler.hpp).
use cliot.Prelude.{◌≡◌, refl, [], ◌∷◌, All}
use cliot.Exec.Triple.{Post}
use cliot.Runner.Flows.{load_step, load_from}
use cliot.Runner.Flows.Framed.{script_at}
use cliot.Runner.Flows.Turns.{IsPlain, served, rotate}
use cliot.Json.{Holds}
use cliot.Samples.Hosts.{host, world, two_flows}
use cliot.Samples.Scripts.{Holds-script_at}
use cliot.Scheduler.{run_all}
use cliot.Scheduler.Turns.{IsPlainHost, TookTurns, run_all-TookTurns, four}

-- Six turns.
six : (served 6 four ≡ 0 ∷ 1 ∷ 2 ∷ 3 ∷ 0 ∷ 1 ∷ []) × (rotate 6 four ≡ 2 ∷ 3 ∷ 0 ∷ 1 ∷ [])
six = (refl, refl)

host-IsPlainHost : IsPlainHost host
unfolding load_from load_step
host-IsPlainHost path steps e =
    let p : Holds (λ ss. All IsPlain (load_from ss path)) (script_at host path) =
      Holds-script_at (λ ss. All IsPlain (load_from ss path)) path (tt, (tt, tt)) (tt, (tt, tt)) in
    rw e at p

run_all-TookTurns_example :
    Post
      (λ _ v. TookTurns host v)
      (λ _ v. TookTurns host v)
      (λ _. Unit {0})
      (run_all host 1 two_flows world).0
      (run_all host 1 two_flows world).1
run_all-TookTurns_example = run_all-TookTurns host host-IsPlainHost 1 two_flows world refl refl
