-- ===== src/Runner/Flows/Ranks.antt =====
-- A rank for each flow, which tells how deep its subflows and blocks nest (src/runner.hpp,
-- src/flow/step/run_flow.hpp).
use cliot.Prelude.{ℕ, zero, suc, ◌≤◌, ◌≡◌, String, All, arith}
use cliot.Json.{value}
use cliot.Exec.{Halt, waits, aborted}
use cliot.Exec.Triple.{Triple}
use cliot.Host.{Host}
use cliot.World.{World}
use cliot.Flow.Descriptors.{Step, Steps, nil, cons}
use cliot.Flow.FilePath.{◌//◌, parent_path}
use cliot.Runner.Flows.{load_step, load_from, run_flow, run_top}
use cliot.Runner.Flows.Framed.{script_at}
use cliot.Runner.Flows.Steady.{IsSteady, parts_of}
use cliot.Runner.Flows.Nested.{AllowedStep, Steady-run_loaded, Steady-run_top}

abbrev mutual
  -- The steps of a flow at `path` nest at most `r` levels, their own included, if the flows that they run
  -- nest as deep as their ranks say.
  pub Fits : (String → ℕ) → ℕ → String → Steps → Type 0
  Fits rank zero path steps = ⊥
  Fits rank (suc r) path nil = Unit {0}
  Fits rank (suc r) path (cons s rest) = FitsStep rank r path s × Fits rank (suc r) path rest

  pub FitsStep : (String → ℕ) → ℕ → String → Step → Type 0
  FitsStep rank r path (Step.request file) = Unit {0}
  FitsStep rank r path (Step.response file) = Unit {0}
  FitsStep rank r path (Step.run_flow name) = rank (parent_path (parent_path path) // name) ≤ r
  FitsStep rank r path (Step.repeat_block steps repeat) = Fits rank r path steps

module _ (H : Host) (rank : String → ℕ) where
  -- Each script nests no deeper than the rank of its flow, so it runs flows of smaller ranks only.
  abbrev pub IsRanked : Type 0
  IsRanked =
      (path : String) (steps : Steps)
      → script_at H path ≡ value steps
      → Fits rank (rank path) path steps

  -- Steps that a bound of `depth` is enough for.
  abbrev Enough : ℕ → String → Steps → Type 0
  Enough depth path steps = (r : ℕ) × (r ≤ depth) × Fits rank r path steps

  allowed :
      (ranked : IsRanked) (depth r : ℕ)
      → r ≤ depth
      → (path : String) (steps : Steps) → Fits rank (suc r) path steps
      → All (AllowedStep H (Enough depth)) (load_from steps path)
  unfolding load_from load_step
  allowed ranked depth r le path nil h = tt
  allowed ranked depth r le path (cons (Step.request file) rest) h =
      (tt, allowed ranked depth r le path rest h.1)
  allowed ranked depth r le path (cons (Step.response file) rest) h =
      (tt, allowed ranked depth r le path rest h.1)
  allowed ranked depth r le path (cons (Step.run_flow name) rest) h = (
    (λ steps e. (rank _, omega (arith, h.0, le), ranked _ steps e)),
    allowed ranked depth r le path rest h.1,
  )
  allowed ranked depth r le path (cons (Step.repeat_block steps repeat) rest) h =
      ((r, le, h.0), allowed ranked depth r le path rest h.1)

  module _ (ranked : IsRanked) (I : World H.json.Json → Type 0) (s : IsSteady I) (N : Halt → Type 0)
      (waits_N : N waits) (aborted_N : N aborted) where
    open H use {json}
    open json use {Json}

    flow_bounded :
        (depth : ℕ) (name path : String) (steps : Steps)
        → Enough depth path steps
        → Triple I (run_flow H depth name path steps) (λ _. I) (λ _. I) N
    unfolding run_flow
    flow_bounded zero name path steps (zero, le, fits) = absurd fits
    flow_bounded zero name path steps (suc r, le, fits) = absurd (omega (arith, le))
    flow_bounded (suc depth) name path steps (zero, le, fits) = absurd fits
    flow_bounded (suc depth) name path steps (suc r, le, fits) =
        Steady-run_loaded H I N (parts_of H I s N waits_N aborted_N) waits_N aborted_N
          (Enough depth) (run_flow H depth) (λ n p ss ok. flow_bounded depth n p ss ok) name path
          steps (allowed ranked depth r (omega (arith, le)) path steps fits)

    pub top_bounded :
        (depth : ℕ) (name path : String)
        → rank path ≤ depth
        → Triple I (run_top H depth name path) (λ _. I) (λ _. I) N
    top_bounded depth name path le =
        Steady-run_top H I N (parts_of H I s N waits_N aborted_N) waits_N aborted_N depth name path
          (λ steps e. flow_bounded depth name path steps (rank path, le, ranked path steps e))
