-- ===== src/Scheduler.antt =====
-- Scheduler::run (src/scheduler.hpp) and the handler of main (src/main.cpp).
pub mod Links
pub mod Verdicts
pub mod Log
pub mod Judged
pub mod Logged
pub mod Sent
pub mod Trace
pub mod Blame
pub mod Exit
pub mod Depth
pub mod Turns
pub mod Isolated
pub mod Printed
mod Tests
use cliot.Prelude.{ℕ, zero, suc, String, List, [], ◌∷◌}
use cliot.Reporting.Events.{success, failure}
use cliot.Exec.{
  Exec, Exn, flow, what, pure, throw, catch, ◌>>=◌, ◌>>◌, Outcome, returns, throws, halts,
}
use cliot.Json.{Checked}
use cliot.Crawler.{DirectoryEntry, crawl}
use cliot.Host.{Host}
use cliot.World.{World, record_event}
use cliot.Runner.Flows.{flow_runner, run_top}

module _ (H : Host) where
  open H use {json}
  open json use {Json}

  -- catch(FlowException const &e): only these are reported as failures.
  unfoldable pub on_failure : String → Exn → Exec (World Json) (Unit {0})
  on_failure name (flow e) = record_event (
      failure
        (record { flow_name = name; path = e.path; issues = e.issues; response = e.response }))
  on_failure name e = throw e

  -- One round of the loop.
  unfoldable pub run_one : ℕ → String → String → Exec (World Json) (Unit {0})
  unfolding on_failure
  run_one depth name dir =
      let runner = flow_runner name dir in
      catch
        (run_top H depth runner.name runner.path
          >> record_event (success (record { flow_name = name })))
        (on_failure name)

  -- The loop over the flows that the crawler found; the result is EXIT_SUCCESS.
  pub run_all : ℕ → List (String × String) → Exec (World Json) ℕ
  run_all depth [] = pure 0
  run_all depth ((name, dir) ∷ rest) = run_one depth name dir >> run_all depth rest

  -- Scheduler::run; `entries` lists a directory.
  unfoldable pub run :
      (String → Checked (List DirectoryEntry)) → ℕ → String → String → Exec (World Json) ℕ
  run entries depth path filter =
      crawl H entries path filter >>= λ flow_dirs. run_all depth flow_dirs

  -- The handler of main: an exception that reaches it ends the program with EXIT_FAILURE.
  unfoldable pub exit_code : Exec (World Json) ℕ → Exec (World Json) ℕ
  exit_code program = catch program (λ e. pure 1)
