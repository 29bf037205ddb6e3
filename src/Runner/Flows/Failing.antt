-- ===== src/Runner/Flows/Failing.antt =====
-- The ways in which a flow can fail (src/runner.hpp, src/flow/step): a chain of steps, from one of the
-- flow's own to the request or the response that went wrong.
use cliot.Prelude.{ℕ, ◌≡◌, List, [], ◌∷◌, ◌++◌, String, In, there}
use cliot.Json.{value}
use cliot.Exec.{FlowException, flow}
use cliot.Host.{Host, message as arrives}
use cliot.Reporting.Events.{Event}
use cliot.Validation.{fresh}
use cliot.World.{World}
use cliot.Flow.Descriptors.{Steps}
use cliot.Runner.Steps.{flow_exception, logic_issue}
use cliot.Runner.Steps.Performs.{Wrong}
use cliot.Runner.Steps.Comparison.{Blames}
use cliot.Runner.Flows.{
  FlowStep, request_step, response_step, run_flow_step, repeat_block_step, load_from,
}
use cliot.Runner.Flows.Framed.{script_at}

-- What a subflow or a block step makes of the exception of its inner flow: the inner issues, then its
-- own one.
abbrev pub outer : String → String → FlowException → FlowException
outer path message e = record {
  path = path;
  issues = e.issues ++ logic_issue path message "" ∷ [];
  response = "No data";
}

module _ (H : Host) where
  open H use {json}
  open json use {Json}

  -- A session has received the text.
  abbrev pub Received : ℕ → String → Type 0
  Received ws text = (clock : ℕ) × (H.receive clock ws ≡ arrives text)

  -- `FailsIn steps e evs`: a flow of these steps fails at one of them with `e`, after the reports
  -- `evs`. A request fails with one issue, a response with what its comparison of a received text with
  -- the expectations that it has just reported found, and a subflow or a block because one of its own
  -- steps does.
  pub data FailsIn : List FlowStep → FlowException → List (Event Json) → Type 0 where
    request_fails :
        {steps : List FlowStep} {e : FlowException} {evs : List (Event Json)} (path m : String)
        (before after : World Json)
        → In (request_step path) steps
        → flow e ≡ flow_exception path (logic_issue path m "" ∷ []) "No data"
        → Wrong H path before m after
        → after.events ≡ evs
        → FailsIn steps e evs
    response_fails :
        {steps : List FlowStep} {e : FlowException} {evs : List (Event Json)} (path text : String)
        (ws : ℕ) (incoming : Json) (w : World Json)
        → In (response_step path fresh) steps
        → Received ws text
        → json.parse text ≡ value incoming
        → Blames H path incoming (flow e) w
        → w.events ≡ evs
        → FailsIn steps e evs
    subflow_fails :
        {steps : List FlowStep} {e : FlowException} {evs : List (Event Json)} (path : String)
        (inner : Steps)
        → In (run_flow_step path) steps
        → script_at H path ≡ value inner
        → FailsIn (load_from inner path) e evs
        → FailsIn steps (outer path "Subflow execution failed" e) evs
    block_fails :
        {steps : List FlowStep} {e : FlowException} {evs : List (Event Json)} (path : String)
        (repeat : ℕ) (inner : Steps)
        → In (repeat_block_step path repeat inner) steps
        → FailsIn (load_from inner path) e evs
        → FailsIn steps (outer path "Block execution failed" e) evs

  pub later :
      {s : FlowStep} {steps : List FlowStep} {e : FlowException} {evs : List (Event Json)}
      → FailsIn steps e evs
      → FailsIn (s ∷ steps) e evs
  later (request_fails path m before after i p c e) =
      request_fails path m before after (there i) p c e
  later (response_fails path text ws incoming w i r p b e) =
      response_fails path text ws incoming w (there i) r p b e
  later (subflow_fails path inner i p f) = subflow_fails path inner (there i) p f
  later (block_fails path repeat inner i f) = block_fails path repeat inner (there i) f

  -- A flow that is loaded from `dir` fails with `e`, at one of the steps of its script, after the reports
  -- `evs`.
  abbrev pub FailsAt : String → FlowException → List (Event Json) → Type 0
  FailsAt dir e evs =
      (steps : Steps) × (script_at H dir ≡ value steps) × FailsIn (load_from steps dir) e evs
