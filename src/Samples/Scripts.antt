-- ===== src/Samples/Scripts.antt =====
-- What the scripts of the sample environment decode to.
use cliot.Prelude.{String, Bool-cases, inl, inr, str_eq}
use cliot.Flow.Descriptors.{Step, Steps, nil, cons}
use cliot.Flow.FilePath.{◌//◌}
use cliot.Flow.Yaml.{
  load_script, as_step, as_steps, decode_all, decode_type, decode_request, decode_response,
}
use cliot.Runner.Flows.Framed.{script_at}
use cliot.Json.{Holds}
use cliot.Samples.Hosts.{host}

abbrev ask_and : String → Steps
ask_and file = cons (Step.request "ask.json") (cons (Step.response file) nil)

-- What holds of the two scripts holds of every script.
pub Holds-script_at :
    (P : Steps → Type 0) (path : String)
    → P (ask_and "answer.json")
    → P (ask_and "other.json")
    → Holds P (script_at host path)
unfolding load_script as_step as_steps decode_all decode_type decode_request decode_response
Holds-script_at P path p q =
    elim (Bool-cases (str_eq (path // "script.yaml") "flows/hello/script.yaml")) [
      | inl e ↦ rw e p
      | inr e ↦ elim (Bool-cases (str_eq (path // "script.yaml") "flows/wrong/script.yaml")) [
        | inl d ↦ rw (e, d) q
        | inr d ↦ rw (e, d) tt
      ]
    ]
