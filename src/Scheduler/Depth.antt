-- ===== src/Scheduler/Depth.antt =====
-- When a bound on the nesting is large enough (src/scheduler.hpp, src/runner.hpp).
mod Tests
use cliot.Prelude.{ℕ, ◌≤◌, ◌≡◌, ◌≢◌, refl, String, List, [], ◌∷◌, All}
use cliot.Exec.{Exec, Exn, Halt, flow, inja, json as json_exn, other, too_deep, halts}
use cliot.Exec.Triple.{Triple, Triple-pure, Triple-throw, Triple-bind, Triple-catch, Post}
use cliot.Host.{Host}
use cliot.World.{World}
use cliot.Runner.Flows.Steady.{IsSteady}
use cliot.Runner.Flows.Ranks.{IsRanked, top_bounded}
use cliot.Scheduler.{on_failure, run_one, run_all}

module _ (H : Host) (rank : String → ℕ) (ranked : IsRanked H rank) (depth : ℕ) where
  open H use {json}
  open json use {Json}

  abbrev Ends : {A : Type 0} → Exec (World Json) A → Type 0
  Ends m = Triple (λ _. Unit) m (λ _ _. Unit) (λ _ _. Unit) (λ h. h ≢ too_deep)

  anything-IsSteady : IsSteady {Json = Json} (λ w. Unit {0})
  anything-IsSteady = record {
    frame = record {
      on_store = λ w s h. tt;
      on_clock = λ w n h. tt;
      on_simple = λ w ev h. tt;
      on_response = λ w ev h. tt;
    };
    on_request = λ w ev h. tt;
    on_pool = λ w p h. tt;
    on_writes = λ w s h. tt;
  }

  on_failure-Ends : (name : String) (e : Exn) → Ends (on_failure H name e)
  unfolding on_failure
  on_failure-Ends name (flow e) = record { at = λ w h. tt }
  on_failure-Ends name (inja m) = Triple-throw _
  on_failure-Ends name (json_exn m) = Triple-throw _
  on_failure-Ends name (other m) = Triple-throw _

  run_all-Ends :
      (flows : List (String × String))
      → All (λ f. rank f.1 ≤ depth) flows
      → Ends (run_all H depth flows)
  unfolding run_all run_one
  run_all-Ends [] h = Triple-pure 0
  run_all-Ends ((name, dir) ∷ rest) h =
      Triple-bind _ _
        (Triple-catch _ _
          (Triple-bind _ _
            (top_bounded H rank ranked (λ w. Unit {0}) anything-IsSteady (λ x. x ≢ too_deep)
              (λ e. cc) (λ e. cc) depth name dir h.0)
            (λ _. record { at = λ w i. tt }))
          (λ e. on_failure-Ends name e))
        (λ _. run_all-Ends rest h.1)

  -- If each script nests no deeper than a rank of its flow says (a flow runs flows of smaller ranks
  -- only, so none runs itself), then a bound that the ranks of the flows do not exceed is enough: the run
  -- returns an exit code or throws, unless it waits without end or fails an assertion.
  pub run_all-ne-too_deep :
      (flows : List (String × String)) (w : World Json)
      → All (λ f. rank f.1 ≤ depth) flows
      → (run_all H depth flows w).0 ≢ halts too_deep
  run_all-ne-too_deep flows w h e =
      let p : Post (λ _ _. Unit {0}) (λ _ _. Unit {0}) (λ x. x ≢ too_deep)
          (run_all H depth flows w).0 (run_all H depth flows w).1 =
        (run_all-Ends flows h).at w tt in
      (rw e at p) refl
