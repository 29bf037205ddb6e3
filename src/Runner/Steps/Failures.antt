-- ===== src/Runner/Steps/Failures.antt =====
-- How a response step ends (src/flow/step/response.hpp): what it throws, and what one that returns has
-- established.
use cliot.Prelude.{String}
use cliot.Exec.{Exec, Exn, flow, inja, json as json_exn, other, what, catch}
use cliot.Exec.Triple.{Post, Post-weaken, Triple, Triple-bind, Triple-catch}
use cliot.Host.{Host}
use cliot.World.{World, Frame}
use cliot.Validation.{fresh}
use cliot.Runner.Callbacks.Local.{NotFlow, Local-assign}
use cliot.Runner.Templates.Local.{Local-render_template}
use cliot.Runner.Steps.{
  compare_body, on_store_exception, validate_body, on_exception, validate_response,
}
use cliot.Runner.Steps.Comparison.{
  Blames, Passed, compare_body-Passed, logic_blame, on_store_exception-Blames,
}

module _ (H : Host) where
  open H use {json}
  open json use {Json}

  Anything-frame : Frame {Json = Json} (λ w. Unit {0})
  Anything-frame = record {
    on_store = λ w s h. tt;
    on_clock = λ w n h. tt;
    on_simple = λ w ev h. tt;
    on_response = λ w ev h. tt;
  }

  -- What the outer try block can throw: a FlowException of its own, or another exception.
  abbrev Escapes : String → Json → Exn → World Json → Type 0
  Escapes path incoming (flow e) w = Blames H path incoming (flow e) w
  Escapes path incoming e w = Unit

  Escapes-of_NotFlow :
      (path : String) (incoming : Json) (e : Exn) (w : World Json)
      → NotFlow e
      → Escapes path incoming e w
  Escapes-of_NotFlow path incoming (flow e) w h = absurd h
  Escapes-of_NotFlow path incoming (inja m) w h = tt
  Escapes-of_NotFlow path incoming (json_exn m) w h = tt
  Escapes-of_NotFlow path incoming (other m) w h = tt

  Escapes-of_Blames :
      (path : String) (incoming : Json) (e : Exn) (w : World Json)
      → Blames H path incoming e w
      → Escapes path incoming e w
  Escapes-of_Blames path incoming (flow e) w h = h
  Escapes-of_Blames path incoming (inja m) w h = tt
  Escapes-of_Blames path incoming (json_exn m) w h = tt
  Escapes-of_Blames path incoming (other m) w h = tt

  before_comparison {ℓ} :
      {A : Type ℓ} (path : String) (incoming : Json) (m : Exec (World Json) A)
      → Triple (λ _. Unit {0}) m (λ _ _. Unit {0}) (λ e _. Unit {0} × NotFlow e) (λ _. ⊥)
      → Triple (λ _. Unit {0}) m (λ _ _. Unit {0}) (Escapes path incoming) (λ _. ⊥)
  before_comparison path incoming m t = record {
    at = λ w h.
        Post-weaken (λ _ _. Unit {0}) (λ _ _. Unit {0}) (λ e _. Unit {0} × NotFlow e)
          (Escapes path incoming) (λ _. ⊥) (λ _. ⊥) _ _ (λ a u. tt)
          (λ e n. Escapes-of_NotFlow path incoming e _ n.1) (λ x n. n) (t.at w h);
  }

  compare-Escapes :
      (path : String) (incoming : Json) (result : String)
      → Triple
          (λ _. Unit {0})
          (catch
            (compare_body H path fresh incoming result)
            (on_store_exception H path incoming result))
          (λ _. Passed H path incoming)
          (Escapes path incoming)
          (λ _. ⊥)
  compare-Escapes path incoming result = record {
    at = λ w h.
        Post-weaken (λ _. Passed H path incoming) (λ _. Passed H path incoming)
          (Blames H path incoming) (Escapes path incoming) (λ _. ⊥) (λ _. ⊥) _ _ (λ a p. p)
          (λ e b. Escapes-of_Blames path incoming e _ b) (λ x n. n)
          ((Triple-catch _ _ (compare_body-Passed H path incoming result)
              (λ e. on_store_exception-Blames H path incoming result e)).at
            w h);
  }

  on_exception-Blames :
      (path : String) (incoming : Json) (e : Exn)
      → Triple
          (Escapes path incoming e)
          (on_exception H path incoming e)
          (λ _. Passed H path incoming)
          (Blames H path incoming)
          (λ _. ⊥)
  unfolding on_exception
  on_exception-Blames path incoming (flow e) = record { at = λ w h. h }
  on_exception-Blames path incoming (inja m) = record {
    at = λ w h. logic_blame H path incoming (H.inja_message m) "" w;
  }
  on_exception-Blames path incoming (json_exn m) = record {
    at = λ w h. logic_blame H path incoming (what (json_exn m)) "" w;
  }
  on_exception-Blames path incoming (other m) = record {
    at = λ w h. logic_blame H path incoming (what (other m)) "" w;
  }

  -- A response step, with its validator as the flow's loading makes it, always ends. If it returns,
  -- the last event is its ResponseEvent, and the response conforms to the expectations reported in it.
  -- If it throws, then a FlowException with the step's path, the response, and at least one issue:
  -- they are exactly the failures of the response to meet the expectations in the last event, its
  -- ResponseEvent, as the specification names them, or one LOGIC issue.
  pub validate_response-Passed :
      (path : String) (incoming : Json) (w : World Json)
      → Post
          (λ _. Passed H path incoming)
          (Blames H path incoming)
          (λ _. ⊥)
          (validate_response H path fresh incoming w).0
          (validate_response H path fresh incoming w).1
  unfolding validate_response validate_body
  validate_response-Passed path incoming w =
      (Triple-catch _ _
          (Triple-bind _ _
            (before_comparison path incoming _
              (Local-assign H (λ _. Unit {0}) Anything-frame "$res" incoming))
            (λ _.
              Triple-bind _ _
                (before_comparison path incoming _
                  (Local-render_template H (λ _. Unit {0}) Anything-frame path))
                (λ result. compare-Escapes path incoming result)))
          (λ e. on_exception-Blames path incoming e)).at
        w tt
