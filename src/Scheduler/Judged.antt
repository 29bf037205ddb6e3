-- ===== src/Scheduler/Judged.antt =====
-- What one flow reports (src/scheduler.hpp, src/runner.hpp): its beginning, its steps' reports, its
-- verdict.
use cliot.Prelude.{
  ℕ, zero, suc, Bool, true, false, ◌≡◌, refl, ap, ◌∙◌, ◌⊎◌, inl, inr, List, [], ◌∷◌, ◌++◌, none,
  String, All, All-append, append_assoc,
}
use cliot.Reporting.Events.{Event, simple, success, failure, request, response}
use cliot.Exec.{Exec, Exn, flow, inja, json as json_exn, other}
use cliot.Exec.Triple.{
  Triple, Triple-weaken, Triple-pure, Triple-if, Triple-checked, Triple-bind, Triple-catch,
}
use cliot.Host.{Host}
use cliot.World.{World}
use cliot.Flow.Descriptors.{Steps}
use cliot.Flow.FilePath.{◌//◌}
use cliot.Runner.Callbacks.Local.{NotFlow}
use cliot.Runner.Flows.{asserts, load_steps, load_from, run_loaded, run_flow, env_json, run_top}
use cliot.Runner.Flows.Steady.{IsSteady}
use cliot.Runner.Flows.Nested.{steady_steps}
use cliot.Scheduler.{on_failure, run_one}
use cliot.Scheduler.Log.{IsQuiet, IsVerdictOf, running}

module _ (H : Host) where
  open H use {json}
  open json use {Json}

  -- A flow has begun behind the events `before` and has no verdict yet.
  abbrev pub Begun : List (Event Json) → String → World Json → Type 0
  Begun before name w =
      (middle : List (Event Json)) × All IsQuiet middle
      × (w.events ≡ before ++ running name ∷ middle)

  one_more :
      (before : List (Event Json)) (name : String) (w : World Json) (ev : Event Json)
      → IsQuiet ev
      → Begun before name w
      → (middle : List (Event Json)) × All IsQuiet middle
        × (w.events ++ ev ∷ [] ≡ before ++ running name ∷ middle)
  one_more before name w ev q (middle, h, e) = (
    middle ++ ev ∷ [],
    All-append IsQuiet middle (ev ∷ []) h (q, tt),
    ap (λ evs. evs ++ ev ∷ []) e ∙ append_assoc before (running name ∷ middle) (ev ∷ []),
  )

  Begun-IsSteady :
      (before : List (Event Json)) (name : String) → IsSteady {Json = Json} (Begun before name)
  Begun-IsSteady before name = record {
    frame = record {
      on_store = λ w s h. h;
      on_clock = λ w n h. h;
      on_simple = λ w ev h. one_more before name w (simple ev) tt h;
      on_response = λ w ev h. one_more before name w (response ev) tt h;
    };
    on_request = λ w ev h. one_more before name w (request ev) tt h;
    on_pool = λ w p h. h;
    on_writes = λ w s h. h;
  }

  -- How a flow can end without a verdict: what it throws, and what it has reported then.
  abbrev pub Ends : List (Event Json) → String → Exn → World Json → Type 0
  Ends before name e w = Begun before name w ⊎ (NotFlow e × (w.events ≡ before))

  run_flow-Begun :
      (before : List (Event Json)) (depth : ℕ) (name path : String) (steps : Steps)
      → Triple
          (λ w. w.events ≡ before)
          (run_flow H depth name path steps)
          (λ _. Begun before name)
          (Ends before name)
          (λ _. Unit {0})
  unfolding run_flow run_loaded
  run_flow-Begun before zero name path steps = record { at = λ w h. tt }
  run_flow-Begun before (suc depth) name path steps =
      Triple-bind {Q = λ _. Begun before name} _ _
        (record { at = λ w h. ([], tt, ap (λ evs. evs ++ running name ∷ []) h) })
        (λ _.
          Triple-weaken _ (λ a v h. h) (λ e v h. inl h) (λ x h. h)
            (steady_steps H (Begun before name) (Begun-IsSteady before name) depth none
              (load_from steps path)))

  -- What precedes the first report of a flow.
  abbrev Untouched {ℓ} :
      {A : Type ℓ} (before : List (Event Json)) (name : String) → Exec (World Json) A → Type ℓ
  Untouched before name m =
      Triple (λ w. w.events ≡ before) m (λ _ w. w.events ≡ before) (Ends before name)
        (λ _. Unit {0})

  asserts-Untouched :
      (before : List (Event Json)) (name : String) (b : Bool) → Untouched before name (asserts H b)
  unfolding asserts
  asserts-Untouched before name true = Triple-pure tt
  asserts-Untouched before name false = record { at = λ w h. tt }

  load_steps-Untouched :
      (before : List (Event Json)) (name path : String) → Untouched before name (load_steps H path)
  unfolding load_steps
  load_steps-Untouched before name path =
      Triple-bind _ _ (asserts-Untouched before name (H.is_directory path)) (λ _.
        Triple-bind _ _ (asserts-Untouched before name _)
          (λ _. Triple-checked other _ (λ a w _ h. h) (λ m w _ h. inr (tt, h))))

  env_json-Untouched :
      (before : List (Event Json)) (name path : String) → Untouched before name (env_json H path)
  unfolding env_json
  env_json-Untouched before name path =
      Triple-if (H.exists (path // "env.json")) _ _
        (λ _.
          Triple-bind _ _ (Triple-checked inja _ (λ a w _ h. h) (λ m w _ h. inr (tt, h)))
            (λ parsed. Triple-checked json_exn parsed (λ a w _ h. h) (λ m w _ h. inr (tt, h))))
        (λ _. Triple-pure json.null)

  run_top-Begun :
      (before : List (Event Json)) (depth : ℕ) (name dir : String)
      → Triple
          (λ w. w.events ≡ before)
          (run_top H depth name dir)
          (λ _. Begun before name)
          (Ends before name)
          (λ _. Unit {0})
  unfolding run_top
  run_top-Begun before depth name dir =
      Triple-bind _ _ (env_json-Untouched before name dir) (λ store.
        Triple-bind {Q = λ _ w. w.events ≡ before} _ _ (record { at = λ w h. h })
          (λ _.
            Triple-bind _ _ (load_steps-Untouched before name dir)
              (λ steps. run_flow-Begun before depth name dir steps)))

  -- A flow has its verdict.
  abbrev pub Judged : List (Event Json) → String → World Json → Type 0
  Judged before name w =
      (middle : List (Event Json)) × (verdict : Event Json) × All IsQuiet middle
      × IsVerdictOf name verdict
      × (w.events ≡ before ++ running name ∷ (middle ++ verdict ∷ []))

  judge :
      (before : List (Event Json)) (name : String) (w : World Json) (verdict : Event Json)
      → IsVerdictOf name verdict
      → Begun before name w
      → Judged before name (record w { events = w.events ++ verdict ∷ [] })
  judge before name w verdict v (middle, h, e) = (
    middle,
    verdict,
    h,
    v,
    ap (λ evs. evs ++ verdict ∷ []) e ∙ append_assoc before (running name ∷ middle) (verdict ∷ []),
  )

  on_failure-Judged :
      (before : List (Event Json)) (name : String) (e : Exn)
      → Triple
          (Ends before name e)
          (on_failure H name e)
          (λ _. Judged before name)
          (λ x w. NotFlow x × Ends before name x w)
          (λ _. Unit {0})
  unfolding on_failure
  on_failure-Judged before name (flow e) = record {
    at = λ w h. elim h [ inl b ↦ judge before name w (failure _) refl b | inr n ↦ absurd n.0 ];
  }
  on_failure-Judged before name (inja m) = record { at = λ w h. (tt, h) }
  on_failure-Judged before name (json_exn m) = record { at = λ w h. (tt, h) }
  on_failure-Judged before name (other m) = record { at = λ w h. (tt, h) }

  pub run_one-Judged :
      (before : List (Event Json)) (depth : ℕ) (name dir : String)
      → Triple
          (λ w. w.events ≡ before)
          (run_one H depth name dir)
          (λ _. Judged before name)
          (λ x w. NotFlow x × Ends before name x w)
          (λ _. Unit {0})
  unfolding run_one
  run_one-Judged before depth name dir =
      Triple-catch {E = Ends before name} _ _
        (Triple-bind _ _ (run_top-Begun before depth name dir)
          (λ _. record { at = λ w h. judge before name w (success _) refl h }))
        (λ e. on_failure-Judged before name e)
