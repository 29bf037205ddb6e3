-- ===== src/Flow/Yaml.antt =====
-- Decoding a script (src/flow/impl/yaml_conversion.hpp and yaml_file_loader.cpp).
pub mod Documents
pub mod Decoded
pub mod Encoded
mod Tests
use cliot.Prelude.{ℕ, zero, suc, String, List, [], ◌∷◌, none, some, str_eq, if◌then◌else◌}
use cliot.Json.{Checked, value, fails}
use cliot.Host.{YamlLib}
use cliot.Flow.Descriptors.{Step, request, response, run_flow, repeat_block, Steps, nil, cons}

infixl 5 ◌>>=◌
abbrev ◌>>=◌ {ℓ κ} : {A : Type ℓ} {B : Type κ} → Checked A → (A → Checked B) → Checked B
value a >>= f = f a
fails m >>= f = fails m

module _ (Y : YamlLib) (indeterminate : ℕ) where
  open Y use {Node}

  -- node[key].as<T>()
  abbrev pub field_as {ℓ} : {T : Type ℓ} → (Node → Checked T) → Node → String → Checked T
  field_as as_T node key =
      Y.subscript node key >>= elim [ none ↦ fails Y.bad_node | some n ↦ as_T n ]

  -- convert<descriptor::Request>, convert<descriptor::Response>, convert<descriptor::RunFlow>
  unfoldable pub decode_request : Node → Checked Step
  decode_request node = do file ← field_as Y.as_text node "file"; value (request file)

  unfoldable pub decode_response : Node → Checked Step
  decode_response node = do file ← field_as Y.as_text node "file"; value (response file)

  unfoldable pub decode_run_flow : Node → Checked Step
  decode_run_flow node = do name ← field_as Y.as_text node "name"; value (run_flow name)

  -- The conversion of a sequence to std::vector<Step>.
  unfoldable pub decode_all : (Node → Checked Step) → List Node → Checked Steps
  decode_all as_step [] = value nil
  decode_all as_step (n ∷ ns) =
      as_step n >>= λ s. decode_all as_step ns >>= λ rest. value (cons s rest)

  unfoldable pub as_steps : (Node → Checked Step) → Node → Checked Steps
  as_steps as_step node = do ns ← Y.as_sequence node; decode_all as_step ns

  -- `rhs.repeat` is set only if the key is there: it starts as whatever the new struct holds.
  unfoldable pub decode_repeat : Node → Checked ℕ
  decode_repeat node =
      Y.subscript node "repeat" >>= elim [ none ↦ value indeterminate | some n ↦ Y.as_uint32 n ]

  -- convert<descriptor::RepeatBlock>
  unfoldable pub decode_block : (Node → Checked Step) → Node → Checked Step
  decode_block as_step node = do
    repeat ← decode_repeat node
    steps ← field_as (as_steps as_step) node "steps"
    value (repeat_block steps repeat)

  -- convert<descriptor::Step>; where it returns false, as<Step>() throws.
  unfoldable pub decode_type : (Node → Checked Step) → Node → String → Checked Step
  decode_type as_step node type =
      if str_eq type "request"
      then decode_request node
      else if str_eq type "response"
      then decode_response node
      else if str_eq type "run_flow"
      then decode_run_flow node
      else if str_eq type "block"
      then decode_block as_step node
      else fails Y.bad_conversion

  -- node.as<descriptor::Step>(). The first argument bounds how deep blocks nest in the document.
  unfoldable pub as_step : ℕ → Node → Checked Step
  as_step zero node = fails Y.bad_conversion
  as_step (suc depth) node =
      if Y.is_map node
      then (field_as Y.as_text node "type" >>= λ type. decode_type (as_step depth) node type)
      else fails Y.bad_conversion

  -- LoadFile and doc["steps"].as<…>(). Blocks nest in a document no deeper than its nodes do.
  unfoldable pub load_script : Checked Node → Checked Steps
  unfolding as_step as_steps
  load_script loaded = do doc ← loaded; field_as (as_steps (as_step (Y.depth doc))) doc "steps"
