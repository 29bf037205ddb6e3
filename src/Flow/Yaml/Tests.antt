-- ===== src/Flow/Yaml/Tests.antt =====
-- A step of the sample documents (src/flow/impl/yaml_conversion.hpp).
use cliot.Prelude.{◌≡◌, ◌↔◌, [], ◌∷◌}
use cliot.Json.{value}
use cliot.Flow.Descriptors.{Step, Steps, nil, cons}
use cliot.Flow.Yaml.{load_script}
use cliot.Flow.Yaml.Documents.{HasSteps}
use cliot.Flow.Yaml.Encoded.{load_script-HasSteps}
use cliot.Samples.Hosts.{documents, Node, script, step}

abbrev ask : Node
ask = step "request" "ask.json"

abbrev hello : Node
hello = script (("request", "ask.json") ∷ ("response", "answer.json") ∷ [])

abbrev hello_steps : Steps
hello_steps = cons (Step.request "ask.json") (cons (Step.response "answer.json") nil)

load_script-HasSteps_example :
    (load_script documents 0 (value hello) ≡ value hello_steps)
    ↔ HasSteps documents 0 hello hello_steps
load_script-HasSteps_example = load_script-HasSteps documents 0 hello hello_steps
