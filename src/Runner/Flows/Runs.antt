-- ===== src/Runner/Flows/Runs.antt =====
-- What running a flow does to the connections (src/runner.hpp, src/flow/step): every session that a
-- flow takes goes back to the pool, also when a step throws, and with enough sessions nobody waits for
-- one.
use cliot.Prelude.{
  ℕ, zero, suc, ◌+◌, ◌≤◌, ◌≡◌, false, List, [], ◌∷◌, Option, none, some, arith, String,
}
use cliot.Exec.{Exec, Halt, waits}
use cliot.Exec.Triple.{Triple, Triple-pure, Triple-bind, Triple-catch}
use cliot.Host.{Host, silence}
use cliot.World.{World}
use cliot.Flow.Descriptors.{Steps}
use cliot.Runner.Steps
use cliot.Runner.Steps.{perform, perform_body, validate_response}
use cliot.Runner.Flows.{
  FlowStep, request_step, response_step, run_flow_step, repeat_block_step, load_from, run_subflow,
  run_block, run_steps, run_loaded, run_flow, run_top,
}
use cliot.Web.Connections.Held
use cliot.Web.Connections.Held.{PoolIs, held_by, copies}
use cliot.Runner.Flows.Links

module _ (H : Host) (cap : ℕ) (Bad : Type 0) (unconnected : (ws : ℕ) → H.connects ws ≡ false → Bad)
    (unanswered : (clock ws : ℕ) → H.receive clock ws ≡ silence → Bad) where
  open H use {json}
  open json use {Json}

  abbrev OnlyIfBad : Halt → Type 0
  OnlyIfBad h = h ≡ waits → Bad

  abbrev Holding : (ℕ → ℕ) → ℕ → List ℕ → World Json → Type 0
  Holding total n held w = PoolIs cap total n held w.pool

  abbrev Keeps {ℓ} : {A : Type ℓ} → (ℕ → ℕ) → ℕ → List ℕ → Exec (World Json) A → Type ℓ
  Keeps total n held m =
      Triple (Holding total n held) m (λ _. Holding total n held) (λ _. Holding total n held)
        OnlyIfBad

  -- `nested` gives back what it finds, and waits for ever only if it finds `depth` sessions or fewer.
  module _ (depth : ℕ) (nested : String → String → Steps → Exec (World Json) (Unit {0}))
      (keeps : (name path : String) (steps : Steps) (total : ℕ → ℕ) (n : ℕ)
        → (n ≤ depth → Bad)
        → Keeps total n [] (nested name path steps))
      (total : ℕ → ℕ) (n : ℕ) (enough : n ≤ suc depth → Bad) where
    Keeps-nested :
        (link : Option ℕ) (name path : String) (steps : Steps)
        → Keeps total n (held_by link) (nested name path steps)
    Keeps-nested link name path steps =
        Links.Keeps-around H cap Bad unconnected unanswered (nested name path steps) depth
          (keeps name path steps) total n link enough

    Keeps-run_subflow :
        (link : Option ℕ) (path : String) → Keeps total n (held_by link) (run_subflow H nested path)
    unfolding run_subflow
    Keeps-run_subflow link path =
        Triple-catch _ _
          (Triple-bind _ _
            (Links.Keeps-load_steps H cap Bad unconnected unanswered total n (held_by link) path)
            (λ steps. Keeps-nested link _ path steps))
          (λ e.
            Links.Keeps-on_nested H cap Bad unconnected unanswered total n (held_by link) path _ e)

    Keeps-run_block :
        (link : Option ℕ) (path : String) (steps : Steps) (left i : ℕ)
        → Keeps total n (held_by link) (run_block H nested path steps left i)
    unfolding run_block
    Keeps-run_block link path steps zero i = Triple-pure tt
    Keeps-run_block link path steps (suc left) i =
        Triple-bind _ _
          (Triple-catch _ _ (Keeps-nested link _ path steps) (λ e.
            Links.Keeps-on_nested H cap Bad unconnected unanswered total n (held_by link) path _ e))
          (λ _. Keeps-run_block link path steps left (i + 1))

    run_steps-Holding :
        (link : Option ℕ) (steps : List FlowStep)
        → Triple
            (Holding total n (held_by link))
            (run_steps H nested link steps)
            (λ _. Holding total n [])
            (λ _. Holding total n [])
            OnlyIfBad
    unfolding run_steps
    run_steps-Holding link [] =
        Held.release-Holding H cap Bad unconnected unanswered total n link (λ _. Holding total n [])
    run_steps-Holding link (request_step path ∷ rest) =
        Triple-bind _ _
          (Links.unwinding-Holding H cap Bad unconnected unanswered total n link (perform H path)
            (λ new. Holding total n (new ∷ held_by link))
            (Steps.Links.perform-Holding H cap Bad unconnected unanswered total n (held_by link)
              path
              (λ few.
                enough
                  (omega (arith, Links.length-held_by H cap Bad unconnected unanswered link)))))
          (λ new.
            Triple-bind _ _
              (Links.replace-Holding H cap Bad unconnected unanswered total n link new)
              (λ _. run_steps-Holding (some new) rest))
    run_steps-Holding link (response_step path v ∷ rest) =
        Triple-bind _ _
          (Links.unwinding-Holding H cap Bad unconnected unanswered total n link _ _
            (Links.respond-Keeps H cap Bad unconnected unanswered total n link path v))
          (λ _. run_steps-Holding link rest)
    run_steps-Holding link (run_flow_step path ∷ rest) =
        Triple-bind _ _
          (Links.unwinding-Holding H cap Bad unconnected unanswered total n link _ _
            (Keeps-run_subflow link path))
          (λ _. run_steps-Holding link rest)
    run_steps-Holding link (repeat_block_step path repeat steps ∷ rest) =
        Triple-bind _ _
          (Links.unwinding-Holding H cap Bad unconnected unanswered total n link _ _
            (Keeps-run_block link path steps repeat 0))
          (λ _. run_steps-Holding link rest)

  pub run_flow-Keeps :
      (depth : ℕ) (name path : String) (steps : Steps) (total : ℕ → ℕ) (n : ℕ)
      → (n ≤ depth → Bad)
      → Keeps total n [] (run_flow H depth name path steps)
  unfolding run_flow run_loaded
  run_flow-Keeps zero name path steps total n enough = record { at = λ w h e. cc }
  run_flow-Keeps (suc depth) name path steps total n enough =
      Triple-bind _ _ (record { at = λ w h. h })
        (λ _.
          run_steps-Holding depth (run_flow H depth) (run_flow-Keeps depth) total n enough none
            (load_from steps path))

  pub run_top-Keeps :
      (depth : ℕ) (name path : String) (total : ℕ → ℕ) (n : ℕ)
      → (n ≤ depth → Bad)
      → Keeps total n [] (run_top H depth name path)
  unfolding run_top
  run_top-Keeps depth name path total n enough =
      Triple-bind _ _ (Links.Keeps-env_json H cap Bad unconnected unanswered total n [] path)
        (λ store.
          Triple-bind _ _ (record { at = λ w h. h })
            (λ _.
              Triple-bind _ _
                (Links.Keeps-load_steps H cap Bad unconnected unanswered total n [] path)
                (λ steps. run_flow-Keeps depth name path steps total n enough)))
