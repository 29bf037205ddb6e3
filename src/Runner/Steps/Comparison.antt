-- ===== src/Runner/Steps/Comparison.antt =====
-- The inner try block of a response step (src/flow/step/response.hpp): the comparison of the response
-- with the rendered expectations.
use cliot.Prelude.{
  String, ◌≡◌, ◌≢◌, ◌↔◌, ◌⊎◌, inl, inr, In, refl, ◌∙◌, Bool, true, false, List, [], ◌∷◌, ◌++◌,
  Option, some, none, arith,
}
use cliot.Exec.{Exn, flow, inja, json as json_exn, other}
use cliot.Exec.Triple.{Post, Post-weaken, Triple, Triple-bind, Triple-checked}
use cliot.Host.{Host}
use cliot.Reporting.Events.{Issue, Event, response as response_event}
use cliot.World.{World}
use cliot.Validation.{Validator, fresh, validate}
use cliot.Validation.Issues.{validate-issues}
use cliot.Validation.Spec.{Conforms, Reports}
use cliot.Validation.Conforms.{Verdict, validate-Verdict}
use cliot.Runner.Steps.{flow_exception, logic_issue, conclude, compare_body, on_store_exception}

module _ (H : Host) where
  open H use {json}
  open json use {Json}

  -- The last event has the response and the expectations.
  abbrev pub Reported : String → Json → Json → World Json → Type 0
  Reported path incoming x w =
      (before : List (Event Json)) × (w.events
        ≡ before
          ++ response_event
              (record { path = path; response = json.dump incoming; expectations = json.dump x })
            ∷ [])

  -- The issues are exactly the failures of the response to meet the expectations that were reported last,
  -- or one LOGIC issue.
  abbrev pub Accounts : String → Json → List Issue → World Json → Type 0
  Accounts path incoming is w =
      ((x : Json) × Reported path incoming x w
        × ((d : Issue) → In d is ↔ Reports json "" x incoming d))
      ⊎ ((m : String) × (detail : String) × (is ≡ logic_issue path m detail ∷ []))

  -- The exception is a FlowException with the step's path and the response, and it names the issues.
  abbrev pub Blames : String → Json → Exn → World Json → Type 0
  Blames path incoming e w =
      (is : List Issue) × (e ≡ flow_exception path is (json.dump incoming))
      × (is ≢ [])
      × Accounts path incoming is w

  -- The response conforms to the expectations that the step has just reported.
  abbrev pub Passed : String → Json → World Json → Type 0
  Passed path incoming w = (x : Json) × Reported path incoming x w × Conforms json x incoming

  -- What the comparison can throw: its own FlowException, or the parser's exception.
  abbrev pub Compares : String → Json → Exn → World Json → Type 0
  Compares path incoming (json_exn m) w = Unit
  Compares path incoming e w = Blames path incoming e w

  concluded :
      (path : String) (incoming x : Json) (o : Option ((Bool × List Issue) × Validator))
      → o ≡ validate json fresh x incoming
      → Verdict json x incoming o
      → (w : World Json) → Reported path incoming x w
      → Post
          (λ _ v. (v ≡ w) × Conforms json x incoming)
          (Blames path incoming)
          (λ _. ⊥)
          (conclude H path incoming o w).0
          (conclude H path incoming o w).1
  unfolding conclude
  concluded path incoming x none e h w r = absurd h
  concluded path incoming x (some ((true, is), v)) e h w r = (refl, h.0.0 refl)
  concluded path incoming x (some ((false, is), v)) e h w r = (
    is,
    refl,
    (λ nothing. ground (arith, e ∙ validate-issues json fresh x incoming, nothing)),
    inl (x, r, h.1),
  )

  pub compare_body-Passed :
      (path : String) (incoming : Json) (result : String)
      → Triple
          (λ _. Unit {0})
          (compare_body H path fresh incoming result)
          (λ _. Passed path incoming)
          (Compares path incoming)
          (λ _. ⊥)
  unfolding compare_body
  compare_body-Passed path incoming result =
      Triple-bind _ _
        (Triple-checked {Q = λ _ _. Unit {0}} json_exn (json.parse result) (λ a w _ h. tt)
          (λ m w _ h. tt))
        (λ x.
          Triple-bind {Q = λ _. Reported path incoming x} _ _
            (record { at = λ w h. (w.events, refl) })
            (λ _. record {
              at = λ w h.
                  Post-weaken (λ _ v. (v ≡ w) × Conforms json x incoming)
                    (λ _. Passed path incoming) (Blames path incoming) (Compares path incoming)
                    (λ _. ⊥) (λ _. ⊥) _ _ (λ a p. rw p.0 (x, h, p.1))
                    (λ e b. Compares-of_Blames e _ b) (λ n k. k)
                    (concluded path incoming x (validate json fresh x incoming) refl
                      (validate-Verdict json x incoming) w h);
            }))
    where
      Compares-of_Blames :
          (e : Exn) (w : World Json) → Blames path incoming e w → Compares path incoming e w
      Compares-of_Blames (json_exn m) w b = tt
      Compares-of_Blames (flow e) w b = b
      Compares-of_Blames (inja m) w b = b
      Compares-of_Blames (other m) w b = b

  one-ne-nil : {A : Type 0} (x : A) → x ∷ [] ≢ []
  one-ne-nil x e = cc

  pub logic_blame :
      (path : String) (incoming : Json) (m detail : String) (w : World Json)
      → Blames path incoming
          (flow_exception path (logic_issue path m detail ∷ []) (json.dump incoming))
          w
  logic_blame path incoming m detail w =
      (_, refl, one-ne-nil (logic_issue path m detail), inr (m, detail, refl))

  pub on_store_exception-Blames :
      (path : String) (incoming : Json) (result : String) (e : Exn)
      → Triple
          (Compares path incoming e)
          (on_store_exception H path incoming result e)
          (λ _. Passed path incoming)
          (Blames path incoming)
          (λ _. ⊥)
  unfolding on_store_exception
  on_store_exception-Blames path incoming result (json_exn m) = record {
    at = λ w h. logic_blame path incoming m result w;
  }
  on_store_exception-Blames path incoming result (flow e) = record { at = λ w h. h }
  on_store_exception-Blames path incoming result (inja m) = record { at = λ w h. h }
  on_store_exception-Blames path incoming result (other m) = record { at = λ w h. h }
