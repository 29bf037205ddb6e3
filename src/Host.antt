-- ===== src/Host.antt =====
-- What the program runs on and does not implement: the libraries that it links, the file system and
-- the network. An interface with the calls that the sources make.
use cliot.Prelude.{ℕ, ◌<◌, String, ◌≡◌, Bool, List, Option, some, All}
use cliot.Json.{JsonLib, Checked, value}
use cliot.Web.Fetcher.{Exchange}

-- A template's rendering by inja, as its environment sees it: it reads the data, calls the callbacks
-- with evaluated arguments, and ends with a text or an exception, of inja or of the JSON library. The
-- data are the store itself, so a later read sees what a callback wrote.
pub data Script (Json : Type 0) : Type 0 where
  text : String → Script Json
  inja_error : String → Script Json
  json_error : String → Script Json
  reads : (Json → Script Json) → Script Json
  store_and_return : Json → Json → (Json → Script Json) → Script Json
  store : Json → Json → (Json → Script Json) → Script Json
  combine : Json → Json → (Json → Script Json) → Script Json
  equal : Json → Json → (Json → Script Json) → Script Json
  load : Json → (Json → Script Json) → Script Json
  assert_that : Json → Json → (Json → Script Json) → Script Json
  report : Json → (Json → Script Json) → Script Json
  fetch : Json → Json → (Json → Script Json) → Script Json
  fetch_json : Json → Json → (Json → Script Json) → Script Json

-- What comes of a blocking read from a web socket.
pub data Arrival : Type 0 where
  message : String → Arrival
  read_error : String → Arrival
  silence : Arrival

-- yaml-cpp. `subscript` is operator[], which gives an undefined node on a missing key; `as_text`,
-- `as_uint32` and `as_sequence` are as<…>() on a defined node; `bad_node` is what as<…>() throws on an
-- undefined one, and `bad_conversion` what it throws where `decode` returned false. A document is a
-- finite tree: the nodes in a node are less deep.
pub record YamlLib : Type 1 where
  pub Node : Type 0
  pub is_map : Node → Bool
  pub subscript : Node → String → Checked (Option Node)
  pub as_text : Node → Checked String
  pub as_uint32 : Node → Checked ℕ
  pub as_sequence : Node → Checked (List Node)
  pub depth : Node → ℕ
  pub subscript_depth :
      (n : Node) (k : String) (m : Node) → subscript n k ≡ value (some m) → depth m < depth n
  pub sequence_depth :
      (n : Node) (ns : List Node) → as_sequence n ≡ value ns → All (λ m. depth m < depth n) ns
  pub bad_node : String
  pub bad_conversion : String

-- `connects` tells of each web socket session whether its handshake succeeds in the end; `receive`
-- and `exchange` give what the n-th exchange with the network brings; `inja_message` takes an InjaError's
-- `message` out of its what(), which has the type and the place in front of it; `load_json` is that of
-- inja::Environment: the file may not open, and its text may not parse; `to_lower` is to_lower_copy of
-- boost::algorithm; `indeterminate` is what an
-- uninitialised integer happens to hold; `decimal` is fmt's rendering of an integer.
pub record Host : Type 1 where
  pub json : JsonLib
  pub yaml : YamlLib
  pub Template : Type 0
  pub parse_template : String → Checked Template
  pub render : Template → Script json.Json
  pub inja_message : String → String
  pub exists : String → Bool
  pub is_directory : String → Bool
  pub load_file : String → Checked yaml.Node
  pub load_json : String → Checked (Checked json.Json)
  pub connects : ℕ → Bool
  pub receive : ℕ → ℕ → Arrival
  pub exchange : ℕ → Exchange
  pub to_lower : String → String
  pub indeterminate : ℕ
  pub decimal : ℕ → String
