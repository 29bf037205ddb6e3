-- ===== src/Runner/Tests.antt =====
-- The request and the response step on the sample environment (src/flow/step).
use cliot.Prelude.{refl, ◌+++◌, String, ◌≡◌, [], ◌∷◌}
use cliot.Exec.Triple.{Post}
use cliot.Samples.Hosts.{host, world}
use cliot.Samples.Tree.{text}
use cliot.Validation.{fresh}
use cliot.Flow.Descriptors.{Step}
use cliot.Flow.FilePath.{◌//◌, parent_path}
use cliot.Runner.Flows.{FlowStep, load_step}
use cliot.Runner.Flows.Paths.{load_step-top, load_step-nested}
use cliot.Runner.Steps.{flow_exception, logic_issue, perform, validate_response}
use cliot.Runner.Steps.Comparison.{Passed, Blames}
use cliot.Runner.Steps.Failures.{validate_response-Passed}
use cliot.Runner.Steps.Performs.{Writes, Wrong, Blocks, perform-Writes}

perform-Writes_example :
    Post
      (Writes host "flows/hello/ask.json" world)
      (λ e v.
        (m : String) × (e
          ≡ flow_exception "flows/hello/ask.json"
              (logic_issue "flows/hello/ask.json" m "" ∷ [])
              "No data")
        × Wrong host "flows/hello/ask.json" world m v
        × (v.pool ≡ world.pool)
        × (v.writes ≡ world.writes))
      (Blocks host "flows/hello/ask.json" world)
      (perform host "flows/hello/ask.json" world).0
      (perform host "flows/hello/ask.json" world).1
perform-Writes_example = perform-Writes host "flows/hello/ask.json" world

validate_response-Passed_example :
    Post
      (λ _. Passed host "flows/hello/answer.json" (text "ok"))
      (Blames host "flows/hello/answer.json" (text "ok"))
      (λ _. ⊥)
      (validate_response host "flows/hello/answer.json" fresh (text "ok") world).0
      (validate_response host "flows/hello/answer.json" fresh (text "ok") world).1
validate_response-Passed_example =
    validate_response-Passed host "flows/hello/answer.json" (text "ok") world

load_step-top_example :
    load_step (Step.run_flow "login") ("data/flows" +++ "/" +++ "trade" +++ "/")
    ≡ FlowStep.run_flow_step ("data/flows" +++ "/" +++ "login")
load_step-top_example = load_step-top "data/flows" "trade" "login" refl refl refl refl

load_step-nested_example :
    load_step (Step.run_flow "setup") ("data/flows" +++ "/" +++ "login")
    ≡ FlowStep.run_flow_step (parent_path "data/flows" // "setup")
load_step-nested_example = load_step-nested "data/flows" "login" "setup" refl refl
