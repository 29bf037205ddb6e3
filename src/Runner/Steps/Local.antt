-- ===== src/Runner/Steps/Local.antt =====
-- A response step (src/flow/step/response.hpp) leaves the connections alone, and always comes back.
use cliot.Prelude.{String, Bool, true, false, List, some}
use cliot.Exec.{Exec, Exn, flow, inja, json as json_exn}
use cliot.Exec.Triple.{
  Post-weaken, Triple, Triple-pure, Triple-throw, Triple-bind, Triple-catch, Triple-checked,
}
use cliot.Host.{Host}
use cliot.Reporting.Events.{Issue}
use cliot.World.{Frame, World}
use cliot.Validation.{Validator, validate}
use cliot.Validation.Issues.{validate-issues}
use cliot.Runner.Callbacks.Local.{Local, NotFlow, Local-assign}
use cliot.Runner.Templates.Local.{Local-render_template}
use cliot.Runner.Steps.{
  conclude, compare_body, on_store_exception, validate_body, on_exception, validate_response,
}

module _ (H : Host) (I : World H.json.Json → Type 0) (f : Frame I) where
  open H use {json}
  open json use {Json}

  -- The action keeps the property, whether it returns or throws, and it comes back.
  abbrev pub Stays {ℓ} : {A : Type ℓ} → Exec (World Json) A → Type ℓ
  Stays m = Triple I m (λ _. I) (λ _. I) (λ _. ⊥)

  pub Stays-of_Local {ℓ} : {A : Type ℓ} (m : Exec (World Json) A) → Local H I f m → Stays m
  Stays-of_Local m l = record {
    at = λ w h.
        Post-weaken (λ _. I) (λ _. I) (λ e v. I v × NotFlow e) (λ _. I) (λ _. ⊥) (λ _. ⊥) (m w).0
          (m w).1 (λ a i. i) (λ e i. i.0) (λ x i. i) (l.at w h);
  }

  Stays-conclude-some :
      (path : String) (incoming : Json) (b : Bool) (is : List Issue) (v : Validator)
      → Stays (conclude H path incoming (some ((b, is), v)))
  unfolding conclude
  Stays-conclude-some path incoming true is v = Triple-pure v
  Stays-conclude-some path incoming false is v = Triple-throw _

  -- The comparison has a result, so the step concludes.
  Stays-conclude :
      (path : String) (v : Validator) (expectations incoming : Json)
      → Stays (conclude H path incoming (validate json v expectations incoming))
  Stays-conclude path v expectations incoming =
      rw (validate-issues json v expectations incoming) (Stays-conclude-some path incoming _ _ _)

  Stays-compare_body :
      (path : String) (v : Validator) (incoming : Json) (result : String)
      → Stays (compare_body H path v incoming result)
  unfolding compare_body
  Stays-compare_body path v incoming result =
      Triple-bind _ _ (Triple-checked json_exn (json.parse result) (λ a w _ h. h) (λ m w _ h. h))
        (λ expectations.
          Triple-bind _ _ (record { at = λ w h. f.on_response w _ h })
            (λ _. Stays-conclude path v expectations incoming))

  Stays-on_store_exception :
      (path : String) (incoming : Json) (result : String) (e : Exn)
      → Stays (on_store_exception H path incoming result e)
  unfolding on_store_exception
  Stays-on_store_exception path incoming result (json_exn m) = Triple-throw _
  Stays-on_store_exception path incoming result e = Triple-throw _

  Stays-on_exception :
      (path : String) (incoming : Json) (e : Exn) → Stays (on_exception H path incoming e)
  unfolding on_exception
  Stays-on_exception path incoming (inja m) = Triple-throw _
  Stays-on_exception path incoming (flow e) = Triple-throw _
  Stays-on_exception path incoming e = Triple-throw _

  pub Stays-validate_response :
      (path : String) (v : Validator) (incoming : Json)
      → Stays (validate_response H path v incoming)
  unfolding validate_response validate_body
  Stays-validate_response path v incoming =
      Triple-catch _ _
        (Triple-bind _ _ (Stays-of_Local _ (Local-assign H I f "$res" incoming)) (λ _.
          Triple-bind _ _ (Stays-of_Local _ (Local-render_template H I f path)) (λ result.
            Triple-catch _ _ (Stays-compare_body path v incoming result)
              (λ e. Stays-on_store_exception path incoming result e))))
        (λ e. Stays-on_exception path incoming e)
