-- ===== src/Runner/Flows/Framed.antt =====
-- What a flow does besides borrowing and releasing connections (src/runner.hpp): it keeps what depends
-- on the connections and on the texts written only.
use cliot.Prelude.{ℕ, ◌≡◌, Bool, true, false, Option, none, some, String}
use cliot.Exec.{Exec, Exn, Halt, waits, aborted, flow, inja, json as json_exn, other}
use cliot.Exec.Triple.{
  Post-weaken, Triple, Triple-pure, Triple-throw, Triple-if, Triple-checked, Triple-bind,
}
use cliot.Json.{Checked, value}
use cliot.Flow.Yaml
use cliot.Host.{Host, Arrival, message, read_error, silence}
use cliot.World.{World, Frame}
use cliot.Validation.{Validator}
use cliot.Flow.Descriptors.{Steps}
use cliot.Flow.FilePath.{◌//◌}
use cliot.Runner.Steps.Local.{Stays-validate_response}
use cliot.Runner.Flows.{asserts, load_steps, on_nested, respond, env_json}
use cliot.Web.Connections.{ensure_connection_established, arrived, read_one}

-- What load_steps decodes.
abbrev pub script_at : Host → String → Checked Steps
script_at H path = Yaml.load_script H.yaml H.indeterminate (H.load_file (path // "script.yaml"))

-- `N` holds of the ways in which a step can hang: by waiting, or by an assertion.
module _ (H : Host) (I : World H.json.Json → Type 0) (f : Frame I) (N : Halt → Type 0)
    (waits_N : N waits) (aborted_N : N aborted) where
  open H use {json}
  open json use {Json}

  abbrev pub Framed {ℓ} : {A : Type ℓ} → Exec (World Json) A → Type ℓ
  Framed m = Triple I m (λ _. I) (λ _. I) N

  pub Framed-of_Stays {ℓ} :
      {A : Type ℓ} (m : Exec (World Json) A) → Triple I m (λ _. I) (λ _. I) (λ _. ⊥) → Framed m
  Framed-of_Stays m t = record {
    at = λ w h.
        Post-weaken (λ _. I) (λ _. I) (λ _. I) (λ _. I) (λ _. ⊥) N (m w).0 (m w).1 (λ a i. i)
          (λ e i. i) (λ x f. absurd f) (t.at w h);
  }

  pub Framed-ensure : (ws : ℕ) → Framed (ensure_connection_established H ws)
  unfolding ensure_connection_established
  Framed-ensure ws =
      Triple-if (H.connects ws) _ _ (λ _. Triple-pure tt) (λ _. record { at = λ w h. waits_N })

  Framed-arrived : (a : Arrival) → Framed (arrived H a)
  unfolding arrived
  Framed-arrived (message text) = Triple-pure text
  Framed-arrived (read_error m) = Triple-throw _
  Framed-arrived silence = record { at = λ w h. waits_N }

  Framed-read_one : (ws : ℕ) → Framed (read_one H ws)
  unfolding read_one
  Framed-read_one ws =
      Triple-bind _ _ (Framed-ensure ws) (λ _. record {
        at = λ w h. (Framed-arrived (H.receive w.clock ws)).at _ (f.on_clock w _ h);
      })

  pub Framed-respond :
      (link : Option ℕ) (path : String) (v : Validator) → Framed (respond H link path v)
  unfolding respond
  Framed-respond none path v = Triple-throw _
  Framed-respond (some ws) path v = Triple-bind _ _ (Framed-read_one ws) (λ text.
      Triple-bind _ _ (Triple-checked json_exn (json.parse text) (λ a w _ h. h) (λ m w _ h. h))
        (λ incoming. Framed-of_Stays _ (Stays-validate_response H I f path v incoming)))

  pub Framed-on_nested : (path message : String) (e : Exn) → Framed (on_nested H path message e)
  unfolding on_nested
  Framed-on_nested path text (flow e) = Triple-throw _
  Framed-on_nested path text e = Triple-throw _

  Framed-asserts : (condition : Bool) → Framed (asserts H condition)
  unfolding asserts
  Framed-asserts true = Triple-pure tt
  Framed-asserts false = record { at = λ w h. aborted_N }

  pub Framed-load_steps :
      (path : String)
      → Triple I (load_steps H path) (λ steps w. (script_at H path ≡ value steps) × I w) (λ _. I) N
  unfolding load_steps
  Framed-load_steps path = Triple-bind _ _ (Framed-asserts (H.is_directory path)) (λ _.
      Triple-bind _ _ (Framed-asserts _)
        (λ _. Triple-checked other _ (λ a w e h. (e, h)) (λ m w _ h. h)))

  pub Framed-env_json : (path : String) → Framed (env_json H path)
  unfolding env_json
  Framed-env_json path =
      Triple-if (H.exists (path // "env.json")) _ _
        (λ _.
          Triple-bind _ _ (Triple-checked inja _ (λ a w _ h. h) (λ m w _ h. h))
            (λ parsed. Triple-checked json_exn parsed (λ a w _ h. h) (λ m w _ h. h)))
        (λ _. Triple-pure _)
