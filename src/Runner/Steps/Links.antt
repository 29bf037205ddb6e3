-- ===== src/Runner/Steps/Links.antt =====
-- What a request and a response step do to the connections (src/flow/step/request.hpp, response.hpp).
use cliot.Prelude.{ℕ, ◌≤◌, ◌≡◌, false, List, ◌∷◌, length, String}
use cliot.Exec.{Exec, Halt, waits, json as json_exn}
use cliot.Exec.Triple.{Post-weaken, Triple, Triple-throw, Triple-checked, Triple-bind, Triple-catch}
use cliot.Host.{Host, silence}
use cliot.World.{Frame, World}
use cliot.Runner.Templates.Local.{Local-render_template}
use cliot.Runner.Steps.Local.{Stays, Stays-of_Local}
use cliot.Runner.Steps.{perform, perform_body}
use cliot.Web.Connections.Held
use cliot.Web.Connections.Held.{PoolIs, held_by, copies}

module _ (H : Host) (cap : ℕ) (Bad : Type 0) (unconnected : (ws : ℕ) → H.connects ws ≡ false → Bad)
    (unanswered : (clock ws : ℕ) → H.receive clock ws ≡ silence → Bad) where
  open H use {json}
  open json use {Json}

  abbrev pub OnlyIfBad : Halt → Type 0
  OnlyIfBad h = h ≡ waits → Bad

  module _ (total : ℕ → ℕ) (n : ℕ) where
    abbrev pub Holding : List ℕ → World Json → Type 0
    Holding held w = PoolIs cap total n held w.pool

    abbrev pub Keeps {ℓ} : {A : Type ℓ} → List ℕ → Exec (World Json) A → Type ℓ
    Keeps held m = Triple (Holding held) m (λ _. Holding held) (λ _. Holding held) OnlyIfBad

    -- The held links do not depend on what a frame leaves open.
    pub Holding-frame : (held : List ℕ) → Frame (Holding held)
    Holding-frame held = record {
      on_store = λ w s h. h;
      on_clock = λ w c h. h;
      on_simple = λ w ev h. h;
      on_response = λ w ev h. h;
    }

    pub Keeps-of_Stays {ℓ} :
        {A : Type ℓ} (held : List ℕ) (m : Exec (World Json) A)
        → Stays H (Holding held) (Holding-frame held) m
        → Keeps held m
    Keeps-of_Stays held m l = record {
      at = λ w h.
          Post-weaken (λ _. Holding held) (λ _. Holding held) (λ _. Holding held)
            (λ _. Holding held) (λ _. ⊥) OnlyIfBad (m w).0 (m w).1 (λ a e. e) (λ x e. e)
            (λ x f. absurd f) (l.at w h);
    }

    -- Request::perform takes one session and holds it, or throws and holds none more.
    pub perform-Holding :
        (held : List ℕ) (path : String)
        → (n ≤ length held → Bad)
        → Triple
            (Holding held)
            (perform H path)
            (λ ws. Holding (ws ∷ held))
            (λ _. Holding held)
            OnlyIfBad
    unfolding perform perform_body
    perform-Holding held path full =
        Triple-catch _ _
          (Triple-bind _ _
            (Keeps-of_Stays held _ (
              Stays-of_Local H (Holding held) (Holding-frame held) _
                (Local-render_template H (Holding held) (Holding-frame held) path)))
            (λ res.
              Triple-bind _ _
                (Triple-checked json_exn (json.parse res) (λ a w _ h. h) (λ m w _ h. h))
                (λ parsed.
                  Triple-bind _ _ (record { at = λ w h. h })
                    (λ _.
                      Held.request-Holding H cap Bad unconnected unanswered total n held res
                        full))))
          (λ e. Triple-throw _)
