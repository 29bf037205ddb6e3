-- ===== src/Runner/Flows/Trace.antt =====
-- What a flow throws (src/runner.hpp, src/flow/step): the path and the issues of a FlowException
-- follow the scripts from the flow's own steps down to the step that failed.
use cliot.Prelude.{
  subst, sym, ℕ, zero, suc, ◌+◌, ◌≡◌, refl, List, [], ◌∷◌, Option, none, some, String, here,
}
use cliot.Exec.{Exec, Exn, FlowException, flow, inja, json as json_exn, other, ◌>>=◌}
use cliot.Exec.Triple.{
  Post-weaken, Triple, Triple-pure, Triple-throw, Triple-checked, Triple-bind, Triple-catch,
}
use cliot.Host.{Host}
use cliot.Json.{value}
use cliot.Reporting.Events.{Event}
use cliot.Validation.{fresh}
use cliot.World.{World}
use cliot.Flow.Descriptors.{Step, Steps, nil, cons}
use cliot.Runner.Steps.{perform, validate_response, flow_exception, logic_issue}
use cliot.Runner.Steps.Comparison.{Passed, Blames}
use cliot.Runner.Steps.Failures.{validate_response-Passed}
use cliot.Runner.Steps.Performs.{Writes, Wrong, Blocks, perform-Writes}
use cliot.Runner.Flows.{
  FlowStep, request_step, response_step, run_flow_step, repeat_block_step, load_step, load_from,
  load_steps, on_nested, respond, run_subflow, run_block, run_steps, run_loaded, run_flow, run_top,
}
use cliot.Runner.Flows.Failing.{
  outer, FailsIn, request_fails, response_fails, subflow_fails, block_fails, later, FailsAt,
  Received,
}
use cliot.Runner.Flows.Raises.{
  Fails, Raises, Raises-map, Raises-release, read_one-Received, Raises-load_steps, Raises-env_json,
  Raises-unwinding,
}

-- The validators of the response steps are as the loading of a flow makes them.
abbrev AllFresh : List FlowStep → Type 0
AllFresh [] = Unit
AllFresh (response_step path v ∷ rest) = (v ≡ fresh) × AllFresh rest
AllFresh (s ∷ rest) = AllFresh rest

load_from-AllFresh : (steps : Steps) (base_path : String) → AllFresh (load_from steps base_path)
unfolding load_from load_step
load_from-AllFresh nil base_path = tt
load_from-AllFresh (cons (Step.request f) rest) base_path = load_from-AllFresh rest base_path
load_from-AllFresh (cons (Step.response f) rest) base_path =
    (refl, load_from-AllFresh rest base_path)
load_from-AllFresh (cons (Step.run_flow n) rest) base_path = load_from-AllFresh rest base_path
load_from-AllFresh (cons (Step.repeat_block s n) rest) base_path = load_from-AllFresh rest base_path

module _ (H : Host) where
  open H use {json}
  open json use {Json}

  -- What follows a step.
  Raises-later :
      (s : FlowStep) (steps : List FlowStep) (m : Exec (World Json) (Unit {0}))
      → Raises H (FailsIn H steps) m
      → Raises H (FailsIn H (s ∷ steps)) m
  Raises-later s steps m t =
      Raises-map H (FailsIn H steps) (FailsIn H (s ∷ steps)) (λ e evs f. later H f) m t

  -- The script of `dir`, then a flow of its steps.
  Raises-loaded :
      (dir : String) (m : Steps → Exec (World Json) (Unit {0}))
      → ((steps : Steps) → Raises H (FailsIn H (load_from steps dir)) (m steps))
      → Raises H (FailsAt H dir) (load_steps H dir >>= m)
  Raises-loaded dir m t = Triple-bind _ _ (Raises-load_steps H (FailsAt H dir) dir) (λ steps.
      record {
        at = λ w s.
            (Raises-map H (FailsIn H (load_from steps dir)) (FailsAt H dir)
                (λ e evs f. (steps, s, f)) (m steps) (t steps)).at
              w tt;
      })

  -- What `perform-Writes` says of an exception.
  abbrev PerformFails : String → World Json → Exn → World Json → Type 0
  PerformFails path w e v =
      (m : String) × (e ≡ flow_exception path (logic_issue path m "" ∷ []) "No data")
      × Wrong H path w m v
      × (v.pool ≡ w.pool)
      × (v.writes ≡ w.writes)

  Raises-perform :
      (path : String) (rest : List FlowStep)
      → Raises H (FailsIn H (request_step path ∷ rest)) (perform H path)
  Raises-perform path rest = record {
    at = λ w h.
        Post-weaken (Writes H path w) (λ _ _. Unit {0}) (PerformFails path w)
          (Fails H (FailsIn H (request_step path ∷ rest))) (Blocks H path w) (λ _. Unit {0}) _ _
          (λ a u. tt) (λ e p. here_fails e w (perform H path w).1 p) (λ x u. tt)
          (perform-Writes H path w);
  }
    where
      here_fails :
          (e : Exn) (w v : World Json)
          → PerformFails path w e v
          → Fails H (FailsIn H (request_step path ∷ rest)) e v
      here_fails (flow e) w v (m, p, c, s, u) = request_fails path m w v here p c refl
      here_fails (inja m) w v p = tt
      here_fails (json_exn m) w v p = tt
      here_fails (other m) w v p = tt

  -- The session `ws` has received `text`, and this is the document `incoming`.
  module _ (ws : ℕ) (text : String) (incoming : Json) (received : Received H ws text)
      (parsed : json.parse text ≡ value incoming) where
    Raises-validate_response :
        (path : String) (rest : List FlowStep)
        → Raises H
            (FailsIn H (response_step path fresh ∷ rest))
            (validate_response H path fresh incoming)
    Raises-validate_response path rest = record {
      at = λ w h.
          Post-weaken (λ _. Passed H path incoming) (λ _ _. Unit {0}) (Blames H path incoming)
            (Fails H (FailsIn H (response_step path fresh ∷ rest))) (λ _. ⊥) (λ _. Unit {0}) _ _
            (λ a u. tt) (λ e b. here_fails e (validate_response H path fresh incoming w).1 b)
            (λ x u. tt) (validate_response-Passed H path incoming w);
    }
      where
        here_fails :
            (e : Exn) (w : World Json)
            → Blames H path incoming e w
            → Fails H (FailsIn H (response_step path fresh ∷ rest)) e w
        here_fails (flow e) w b = response_fails path text ws incoming w here received parsed b refl
        here_fails (inja m) w b = tt
        here_fails (json_exn m) w b = tt
        here_fails (other m) w b = tt

  Raises-respond :
      (link : Option ℕ) (path : String) (rest : List FlowStep)
      → Raises H (FailsIn H (response_step path fresh ∷ rest)) (respond H link path fresh)
  unfolding respond
  Raises-respond none path rest = Triple-throw _
  Raises-respond (some ws) path rest =
      Triple-bind {Q = λ text _. Received H ws text} _ _ (read_one-Received H _ ws) (λ text.
        record {
          at = λ w received.
              (Triple-bind {P = λ _. Unit {0}} {Q = λ incoming _. json.parse text ≡ value incoming}
                  _ _ (Triple-checked json_exn (json.parse text) (λ a w e h. e) (λ m w _ h. tt))
                  (λ incoming. record {
                    at = λ v parsed.
                        (Raises-validate_response ws text incoming received parsed path rest).at v
                          tt;
                  })).at
                w tt;
        })

  -- The handler of a subflow or block step adds its own issue to the inner flow's.
  on_nested-outer :
      (path message : String) (F G : FlowException → List (Event Json) → Type 0)
      → ((e : FlowException) (evs : List (Event Json)) → F e evs → G (outer path message e) evs)
      → (e : Exn)
      → Triple
          (Fails H F e)
          (on_nested H path message e)
          (λ _ _. Unit {0})
          (Fails H G)
          (λ _. Unit {0})
  unfolding on_nested
  on_nested-outer path message F G wrap (flow e) = record { at = λ w h. wrap e w.events h }
  on_nested-outer path message F G wrap (inja m) = record { at = λ w h. tt }
  on_nested-outer path message F G wrap (json_exn m) = record { at = λ w h. tt }
  on_nested-outer path message F G wrap (other m) = record { at = λ w h. tt }

  -- The runner of a nested flow, which fails as its own steps do.
  module _ (nested : String → String → Steps → Exec (World Json) (Unit {0}))
      (fails_inside : (name path : String) (steps : Steps)
        → Raises H (FailsIn H (load_from steps path)) (nested name path steps)) where
    Raises-run_subflow :
        (path : String) (rest : List FlowStep)
        → Raises H (FailsIn H (run_flow_step path ∷ rest)) (run_subflow H nested path)
    unfolding run_subflow
    Raises-run_subflow path rest =
        Triple-catch {E = Fails H (FailsAt H path)} _ _
          (Raises-loaded path _ (λ steps. fails_inside _ path steps))
          (λ e.
            on_nested-outer path _ (FailsAt H path) _
              (λ x evs (inner, s, f). subflow_fails path inner here s f) e)

    Raises-run_block :
        (path : String) (repeat : ℕ) (inner : Steps) (rest : List FlowStep) (left i : ℕ)
        → Raises H
            (FailsIn H (repeat_block_step path repeat inner ∷ rest))
            (run_block H nested path inner left i)
    unfolding run_block
    Raises-run_block path repeat inner rest zero i = Triple-pure tt
    Raises-run_block path repeat inner rest (suc left) i =
        Triple-bind _ _
          (Triple-catch {E = Fails H (FailsIn H (load_from inner path))} _ _
            (fails_inside _ path inner)
            (λ e.
              on_nested-outer path _ (FailsIn H (load_from inner path)) _
                (λ x evs f. block_fails path repeat inner here f) e))
          (λ _. Raises-run_block path repeat inner rest left (i + 1))

    Raises-run_steps :
        (link : Option ℕ) (steps : List FlowStep)
        → AllFresh steps
        → Raises H (FailsIn H steps) (run_steps H nested link steps)
    unfolding run_steps
    Raises-run_steps link [] f = Raises-release H _ link
    Raises-run_steps link (request_step path ∷ rest) f =
        Triple-bind _ _ (Raises-unwinding H _ link _ (Raises-perform path rest)) (λ new.
          Triple-bind _ _ (Raises-release H _ link)
            (λ _. Raises-later _ rest _ (Raises-run_steps (some new) rest f)))
    Raises-run_steps link (response_step path v ∷ rest) f =
        subst
          (λ u.
            Raises H (FailsIn H (response_step path u ∷ rest))
              (run_steps H nested link (response_step path u ∷ rest)))
          (sym f.0)
          (Triple-bind _ _ (Raises-unwinding H _ link _ (Raises-respond link path rest))
            (λ _. Raises-later _ rest _ (Raises-run_steps link rest f.1)))
    Raises-run_steps link (run_flow_step path ∷ rest) f =
        Triple-bind _ _ (Raises-unwinding H _ link _ (Raises-run_subflow path rest))
          (λ _. Raises-later _ rest _ (Raises-run_steps link rest f))
    Raises-run_steps link (repeat_block_step path repeat steps ∷ rest) f =
        Triple-bind _ _
          (Raises-unwinding H _ link _ (Raises-run_block path repeat steps rest repeat 0))
          (λ _. Raises-later _ rest _ (Raises-run_steps link rest f))

  Raises-run_flow :
      (depth : ℕ) (name path : String) (steps : Steps)
      → Raises H (FailsIn H (load_from steps path)) (run_flow H depth name path steps)
  unfolding run_flow run_loaded
  Raises-run_flow zero name path steps = record { at = λ w h. tt }
  Raises-run_flow (suc depth) name path steps =
      Triple-bind _ _ (record { at = λ w h. tt })
        (λ _.
          Raises-run_steps (run_flow H depth) (Raises-run_flow depth) none (load_from steps path)
            (load_from-AllFresh steps path))

  pub Raises-run_top :
      (depth : ℕ) (name dir : String) → Raises H (FailsAt H dir) (run_top H depth name dir)
  unfolding run_top
  Raises-run_top depth name dir = Triple-bind _ _ (Raises-env_json H _ dir) (λ store.
      Triple-bind _ _ (record { at = λ w h. tt })
        (λ _. Raises-loaded dir _ (λ steps. Raises-run_flow depth name dir steps)))
