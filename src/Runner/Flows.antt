-- ===== src/Runner/Flows.antt =====
-- Running a flow: FlowRunner::run (src/runner.hpp), Flow::load_from (src/flow/flow.hpp), the factory's
-- two `make` (src/flow/default_flow_factory.hpp) with their loaders (src/flow/impl), and the subflow
-- and block steps (src/flow/step/run_flow.hpp, repeat_block.hpp).
pub mod Links
pub mod Runs
pub mod Framed
pub mod Steady
pub mod Nested
pub mod Ranks
pub mod Turns
pub mod Raises
pub mod Sent
pub mod Failing
pub mod Trace
pub mod Paths
use cliot.Prelude.{
  ℕ, zero, suc, ◌+◌, String, ◌+++◌, Bool, true, false, List, [], ◌∷◌, ◌++◌, Option, none, some, not,
  if◌then◌else◌,
}
use cliot.Exec.{
  Exec, Exn, FlowException, flow, inja, json as json_exn, other, modify, pure, throw, halt, modify,
  checked, catch, ◌>>=◌, ◌>>◌, Outcome, returns, throws, halts, too_deep, aborted,
}
use cliot.Host.{Host}
use cliot.World.{World, with_store, record_simple}
use cliot.Validation.{Validator, fresh}
use cliot.Flow.Descriptors.{Step, Steps, nil, cons}
use cliot.Flow.Descriptors
use cliot.Flow.FilePath.{◌//◌, parent_path}
use cliot.Flow.Yaml
use cliot.Runner.Steps.{flow_exception, logic_issue, perform, validate_response}
use cliot.Web.Connections.{release, link_read_one}

-- Flow::step_t
pub data FlowStep : Type 0 where
  request_step : String → FlowStep
  response_step : String → Validator → FlowStep
  run_flow_step : String → FlowStep
  repeat_block_step : String → ℕ → Steps → FlowStep

-- impl::StepsVecLoader: `load` gives the steps.
pub record StepsVecLoader : Type 0 where
  base_path : String
  load : Steps

abbrev steps_vec_loader : String → Steps → StepsVecLoader
steps_vec_loader base_path steps = record { base_path = base_path; load = steps }

-- The name and the path of a FlowRunner.
pub record FlowRunner : Type 0 where
  pub name : String
  pub path : String

abbrev pub flow_runner : String → String → FlowRunner
flow_runner name path = record { name = name; path = path }

-- The constructors of the four classes: step::Request, step::Response, step::RunFlow and
-- step::RepeatBlock.
abbrev new_request : String → FlowStep
new_request path = request_step path

abbrev new_response : String → FlowStep
new_response path = response_step path fresh

abbrev new_run_flow : String → FlowStep
new_run_flow path = run_flow_step path

abbrev new_repeat_block : String → ℕ → Steps → FlowStep
new_repeat_block path repeat steps = repeat_block_step path repeat steps

-- One descriptor's visitor in load_from.
unfoldable pub load_step : Step → String → FlowStep
load_step (Step.request file) base_path = new_request (base_path // file)
load_step (Step.response file) base_path = new_response (base_path // file)
load_step (Step.run_flow name) base_path =
    new_run_flow (parent_path (parent_path base_path) // name)
load_step (Step.repeat_block steps repeat) base_path = new_repeat_block base_path repeat steps

-- Flow::load_from
unfoldable pub load_from : Steps → String → List FlowStep
load_from nil base_path = []
load_from (cons s rest) base_path = load_step s base_path ∷ load_from rest base_path

-- A Flow, of a loader by what it loads and its base path.
pub record Flow : Type 0 where
  steps : List FlowStep

abbrev new_flow : Steps → String → Flow
new_flow descriptors base_path = record { steps = load_from descriptors base_path }

-- impl::YamlFileLoader
pub record YamlFileLoader : Type 0 where
  base_path : String

abbrev yaml_file_loader : String → YamlFileLoader
yaml_file_loader base_path = record { base_path = base_path }

module _ (H : Host) where
  open H use {json, yaml}
  open json use {Json}

  -- assert(condition)
  unfoldable pub asserts : Bool → Exec (World Json) (Unit {0})
  asserts condition = if condition then pure tt else halt aborted

  -- YamlFileLoader: the assertions of the constructor and of `load`, and the decoding.
  unfoldable pub load_steps : String → Exec (World Json) Steps
  load_steps path = do
    asserts (H.is_directory path)
    asserts (H.exists (path // "script.yaml"))
    checked other (Yaml.load_script yaml H.indeterminate (H.load_file (path // "script.yaml")))

  -- The handler of the subflow and of the block step, `catch(FlowException const &e)`: the inner issues
  -- come first.
  unfoldable pub on_nested : String → String → Exn → Exec (World Json) (Unit {0})
  on_nested path message (flow e) =
      throw (flow_exception path (e.issues ++ logic_issue path message "" ∷ []) "No data")
  on_nested path message e = throw e

  -- A step of a flow that holds `link`: an exception releases it.
  unfoldable pub unwinding {ℓ} : {A : Type ℓ} → Option ℕ → Exec (World Json) A → Exec (World Json) A
  unwinding link m = catch m (λ e. release H link >> throw e)

  -- The response branch of the visitor.
  unfoldable pub respond : Option ℕ → String → Validator → Exec (World Json) Validator
  respond none path validator = throw (other "Response can't come before Request step")
  respond (some ws) path validator = do
    text ← link_read_one H ws
    incoming ← checked json_exn (json.parse text)
    validate_response H path validator incoming

  -- `nested name path steps` runs a flow made of `steps` with a runner of that name and path.
  module _ (nested : String → String → Steps → Exec (World Json) (Unit {0})) where
    -- RunFlow::run
    unfoldable pub run_subflow : String → Exec (World Json) (Unit {0})
    run_subflow path =
        let runner = flow_runner ("subflow[" +++ path +++ "]") path in
        let loader = yaml_file_loader runner.path in
        catch (load_steps loader.base_path >>= λ steps. nested runner.name loader.base_path steps)
          (on_nested path "Subflow execution failed")

    -- RepeatBlock::run, with the rounds left and the index of the next one.
    unfoldable pub run_block : String → Steps → ℕ → ℕ → Exec (World Json) (Unit {0})
    run_block path steps zero i = pure tt
    run_block path steps (suc left) i =
        let loader = steps_vec_loader path steps in
        let runner = flow_runner ("block[" +++ H.decimal (i + 1) +++ "]") path in
        catch (nested runner.name loader.base_path loader.load)
          (on_nested path "Block execution failed")
        >> run_block path steps left (i + 1)

    -- The loop over the steps, with `connection_link`.
    unfoldable pub run_steps : Option ℕ → List FlowStep → Exec (World Json) (Unit {0})
    run_steps link [] = release H link
    run_steps link (request_step path ∷ rest) =
        unwinding link (perform H path) >>= λ new. release H link >> run_steps (some new) rest
    run_steps link (response_step path validator ∷ rest) =
        unwinding link (respond link path validator) >> run_steps link rest
    run_steps link (run_flow_step path ∷ rest) =
        unwinding link (run_subflow path) >> run_steps link rest
    run_steps link (repeat_block_step path repeat steps ∷ rest) =
        unwinding link (run_block path steps repeat 0) >> run_steps link rest

    -- run(env, store, flow)
    unfoldable pub run_loaded : String → String → Steps → Exec (World Json) (Unit {0})
    run_loaded name path steps = do
      let flow = new_flow steps path
      record_simple "RUNNING" name
      run_steps none flow.steps

  -- The first argument bounds how deep subflows and blocks nest: a flow that runs itself would recur
  -- without end.
  unfoldable pub run_flow : ℕ → String → String → Steps → Exec (World Json) (Unit {0})
  run_flow zero name path steps = halt too_deep
  run_flow (suc depth) name path steps = run_loaded (run_flow depth) name path steps

  -- The beginning of FlowRunner::run(): a new store, read from env.json if the flow has one.
  unfoldable pub env_json : String → Exec (World Json) Json
  env_json path =
      if H.exists (path // "env.json")
      then (checked inja (H.load_json (path // "env.json")) >>= λ parsed. checked json_exn parsed)
      else pure json.null

  unfoldable pub run_top : ℕ → String → String → Exec (World Json) (Unit {0})
  run_top depth name path = do
    store ← env_json path
    modify (λ w. with_store w store)
    steps ← load_steps path
    run_flow depth name path steps
