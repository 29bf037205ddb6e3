-- ===== src/Runner/Flows/Nested.antt =====
-- What whole flows keep, from what their steps keep (src/runner.hpp, src/flow/step).
use cliot.Prelude.{ℕ, zero, suc, ◌+◌, ◌≡◌, List, [], ◌∷◌, Option, none, some, String, All}
use cliot.Exec.{Exec, Halt, waits, aborted}
use cliot.Exec.Triple.{Triple, Triple-pure, Triple-bind, Triple-catch}
use cliot.Json.{value}
use cliot.Host.{Host}
use cliot.World.{World}
use cliot.Flow.Descriptors.{Steps}
use cliot.Runner.Flows.{
  FlowStep, request_step, response_step, run_flow_step, repeat_block_step, load_from, unwinding,
  run_subflow, run_block, run_steps, run_loaded, run_flow, run_top,
}
use cliot.Runner.Flows.Framed.{
  script_at, Framed-respond, Framed-on_nested, Framed-load_steps, Framed-env_json,
}
use cliot.Runner.Flows.Steady.{IsSteady, Parts, parts_of, Parts-unwinding}

-- `Allowed path steps`: the runner of a nested flow may be called on them.
module _ (H : Host) (Allowed : String → Steps → Type 0) where
  abbrev pub AllowedStep : FlowStep → Type 0
  AllowedStep (request_step path) = Unit
  AllowedStep (response_step path v) = Unit
  AllowedStep (run_flow_step path) =
      (steps : Steps) → script_at H path ≡ value steps → Allowed path steps
  AllowedStep (repeat_block_step path repeat steps) = Allowed path steps

module _ (H : Host) (I : World H.json.Json → Type 0) (N : Halt → Type 0) (p : Parts H I N)
    (waits_N : N waits) (aborted_N : N aborted) where
  open H use {json}
  open json use {Json}

  abbrev Steady {ℓ} : {A : Type ℓ} → Exec (World Json) A → Type ℓ
  Steady m = Triple I m (λ _. I) (λ _. I) N

  module _ (Allowed : String → Steps → Type 0) where
    module _ (nested : String → String → Steps → Exec (World Json) (Unit {0}))
        (steady : (name path : String) (steps : Steps)
          → Allowed path steps
          → Steady (nested name path steps)) where
      Steady-run_subflow :
          (path : String)
          → AllowedStep H Allowed (run_flow_step path)
          → Steady (run_subflow H nested path)
      unfolding run_subflow
      Steady-run_subflow path ok =
          Triple-catch _ _
            (Triple-bind _ _ (Framed-load_steps H I p.frame N waits_N aborted_N path)
              (λ steps. record { at = λ w h. (steady _ path steps (ok steps h.0)).at w h.1 }))
            (λ e. Framed-on_nested H I p.frame N waits_N aborted_N path _ e)

      Steady-run_block :
          (path : String) (steps : Steps) (left i : ℕ)
          → Allowed path steps
          → Steady (run_block H nested path steps left i)
      unfolding run_block
      Steady-run_block path steps zero i ok = Triple-pure tt
      Steady-run_block path steps (suc left) i ok =
          Triple-bind _ _
            (Triple-catch _ _ (steady _ path steps ok)
              (λ e. Framed-on_nested H I p.frame N waits_N aborted_N path _ e))
            (λ _. Steady-run_block path steps left (i + 1) ok)

      unwound :
          {A : Type 0} (link : Option ℕ) (m : Exec (World Json) A)
          → Steady m
          → Steady (unwinding H link m)
      unwound link m t = Parts-unwinding H I N p link m t

      pub Steady-run_steps :
          (link : Option ℕ) (steps : List FlowStep)
          → All (AllowedStep H Allowed) steps
          → Steady (run_steps H nested link steps)
      unfolding run_steps
      Steady-run_steps link [] ok = p.on_release link
      Steady-run_steps link (request_step path ∷ rest) ok =
          Triple-bind _ _ (unwound link _ (p.on_perform path)) (λ new.
            Triple-bind _ _ (p.on_release link) (λ _. Steady-run_steps (some new) rest ok.1))
      Steady-run_steps link (response_step path v ∷ rest) ok =
          Triple-bind _ _
            (unwound link _ (Framed-respond H I p.frame N waits_N aborted_N link path v))
            (λ _. Steady-run_steps link rest ok.1)
      Steady-run_steps link (run_flow_step path ∷ rest) ok =
          Triple-bind _ _ (unwound link _ (Steady-run_subflow path ok.0))
            (λ _. Steady-run_steps link rest ok.1)
      Steady-run_steps link (repeat_block_step path repeat steps ∷ rest) ok =
          Triple-bind _ _ (unwound link _ (Steady-run_block path steps repeat 0 ok.0))
            (λ _. Steady-run_steps link rest ok.1)

  -- One more level: what its own steps need is allowed.
  pub Steady-run_loaded :
      (Allowed : String → Steps → Type 0)
      (nested : String → String → Steps → Exec (World Json) (Unit {0}))
      → ((name path : String) (steps : Steps)
          → Allowed path steps
          → Steady (nested name path steps))
      → (name path : String) (steps : Steps) → All (AllowedStep H Allowed) (load_from steps path)
      → Steady (run_loaded H nested name path steps)
  unfolding run_loaded
  Steady-run_loaded Allowed nested steady name path steps ok =
      Triple-bind _ _ (record { at = λ w h. p.frame.on_simple w _ h })
        (λ _. Steady-run_steps Allowed nested steady none (load_from steps path) ok)

  -- The beginning of a top-level flow.
  pub Steady-run_top :
      (depth : ℕ) (name path : String)
      → ((steps : Steps)
          → script_at H path ≡ value steps
          → Steady (run_flow H depth name path steps))
      → Steady (run_top H depth name path)
  unfolding run_top
  Steady-run_top depth name path inner =
      Triple-bind _ _ (Framed-env_json H I p.frame N waits_N aborted_N path) (λ store.
        Triple-bind _ _ (record { at = λ w h. p.frame.on_store w _ h })
          (λ _.
            Triple-bind _ _ (Framed-load_steps H I p.frame N waits_N aborted_N path)
              (λ steps. record { at = λ w h. (inner steps h.0).at w h.1 })))

-- What holds however a flow hangs.
module _ (H : Host) (I : World H.json.Json → Type 0) (p : Parts H I (λ _. Unit {0})) where
  open H use {json}
  open json use {Json}

  anything : (steps : List FlowStep) → All (AllowedStep H (λ path steps. Unit {0})) steps
  anything [] = tt
  anything (request_step path ∷ rest) = (tt, anything rest)
  anything (response_step path v ∷ rest) = (tt, anything rest)
  anything (run_flow_step path ∷ rest) = ((λ steps e. tt), anything rest)
  anything (repeat_block_step path repeat steps ∷ rest) = (tt, anything rest)

  flow_keeps :
      (depth : ℕ) (name path : String) (steps : Steps)
      → Triple I (run_flow H depth name path steps) (λ _. I) (λ _. I) (λ _. Unit {0})
  unfolding run_flow
  flow_keeps zero name path steps = record { at = λ w h. tt }
  flow_keeps (suc depth) name path steps =
      Steady-run_loaded H I (λ _. Unit {0}) p tt tt (λ path steps. Unit {0}) (run_flow H depth)
        (λ n p ss ok. flow_keeps depth n p ss) name path steps (anything _)

  -- The loop over the steps of a flow.
  pub steps_keep :
      (depth : ℕ) (link : Option ℕ) (steps : List FlowStep)
      → Triple I (run_steps H (run_flow H depth) link steps) (λ _. I) (λ _. I) (λ _. Unit {0})
  steps_keep depth link steps =
      Steady-run_steps H I (λ _. Unit {0}) p tt tt (λ path steps. Unit {0}) (run_flow H depth)
        (λ n p ss ok. flow_keeps depth n p ss) link steps (anything steps)

  -- A whole top-level flow keeps the property, whether it returns or throws.
  pub top_keeps :
      (depth : ℕ) (name path : String)
      → Triple I (run_top H depth name path) (λ _. I) (λ _. I) (λ _. Unit {0})
  top_keeps depth name path =
      Steady-run_top H I (λ _. Unit {0}) p tt tt depth name path
        (λ steps e. flow_keeps depth name path steps)

-- The same for what no part of a step can break.
module _ (H : Host) (I : World H.json.Json → Type 0) (s : IsSteady I) where
  open H use {json}
  open json use {Json}

  pub steady_steps :
      (depth : ℕ) (link : Option ℕ) (steps : List FlowStep)
      → Triple I (run_steps H (run_flow H depth) link steps) (λ _. I) (λ _. I) (λ _. Unit {0})
  steady_steps = steps_keep H I (parts_of H I s (λ _. Unit {0}) tt tt)

  pub steady_top :
      (depth : ℕ) (name path : String)
      → Triple I (run_top H depth name path) (λ _. I) (λ _. I) (λ _. Unit {0})
  steady_top = top_keeps H I (parts_of H I s (λ _. Unit {0}) tt tt)
