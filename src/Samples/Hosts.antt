-- ===== src/Samples/Hosts.antt =====
-- A small environment for the tests: flat scripts of requests and responses, templates that are plain
-- texts, and a server that always answers "ok".
use cliot.Prelude.{
  ℕ, ◌<◌, String, ◌≡◌, Bool, true, false, ◌||◌, List, [], ◌∷◌, Option, none, some, arith, str_eq,
  if◌then◌else◌, All, Bool-cases, inl, inr,
}
use cliot.Json.{Checked, value, fails, Holds}
use cliot.Host.{YamlLib, Host, Script, text, message}
use cliot.Samples.Exchanges.{echo}
use cliot.Samples.Tree.{Tree, null}
use cliot.Samples.Values.{sample}
use cliot.World.{World}
use cliot.Web.Connections.{make_pool}

-- A document, its list of steps, one step with its type and file, and a scalar.
pub data Node : Type 0 where
  script : List (String × String) → Node
  sequence : List (String × String) → Node
  step : String → String → Node
  scalar : String → Node

abbrev is_map : Node → Bool
is_map (script ss) = true
is_map (step t f) = true
is_map _ = false

abbrev subscript : Node → String → Checked (Option Node)
subscript (script ss) k = if str_eq k "steps" then value (some (sequence ss)) else value none
subscript (step t f) k =
    if str_eq k "type"
    then value (some (scalar t))
    else if str_eq k "file" || str_eq k "name"
    then value (some (scalar f))
    else value none
subscript _ k = fails "operator[] call on a scalar"

abbrev as_text : Node → Checked String
as_text (scalar s) = value s
as_text _ = fails "bad conversion"

abbrev steps_of : List (String × String) → List Node
steps_of [] = []
steps_of ((t, f) ∷ rest) = step t f ∷ steps_of rest

abbrev as_sequence : Node → Checked (List Node)
as_sequence (sequence ss) = value (steps_of ss)
as_sequence _ = fails "bad conversion"

abbrev depth : Node → ℕ
depth (script ss) = 3
depth (sequence ss) = 2
depth (step t f) = 1
depth (scalar s) = 0

abbrev Below : ℕ → Option Node → Type 0
Below n none = Unit {0}
Below n (some m) = depth m < n

subscript-Below : (n : Node) (k : String) → Holds (Below (depth n)) (subscript n k)
subscript-Below (script ss) k = elim (Bool-cases (str_eq k "steps")) [
  | inl e ↦ rw e (omega arith)
  | inr e ↦ rw e tt
]
subscript-Below (step t f) k = elim (Bool-cases (str_eq k "type")) [
  | inl e ↦ rw e (omega arith)
  | inr e ↦ elim (Bool-cases (str_eq k "file" || str_eq k "name")) [
    | inl d ↦ rw (e, d) (omega arith)
    | inr d ↦ rw (e, d) tt
  ]
]
subscript-Below (sequence ss) k = tt
subscript-Below (scalar s) k = tt

pub subscript_depth :
    (n : Node) (k : String) (m : Node) → subscript n k ≡ value (some m) → depth m < depth n
subscript_depth n k m e =
    let p : Holds (Below (depth n)) (subscript n k) = subscript-Below n k in rw e at p

steps_of-All : (ss : List (String × String)) → All (λ m. depth m < 2) (steps_of ss)
steps_of-All [] = tt
steps_of-All ((t, f) ∷ rest) = (omega arith, steps_of-All rest)

sequence-Below : (n : Node) → Holds (All (λ m. depth m < depth n)) (as_sequence n)
sequence-Below (sequence ss) = steps_of-All ss
sequence-Below (script ss) = tt
sequence-Below (step t f) = tt
sequence-Below (scalar s) = tt

pub sequence_depth :
    (n : Node) (ns : List Node) → as_sequence n ≡ value ns → All (λ m. depth m < depth n) ns
sequence_depth n ns e =
    let p : Holds (All (λ m. depth m < depth n)) (as_sequence n) = sequence-Below n in rw e at p

abbrev pub documents : YamlLib
documents = record {
  Node = Node;
  is_map = is_map;
  subscript = subscript;
  as_text = as_text;
  as_uint32 = λ n. fails "bad conversion";
  as_sequence = as_sequence;
  depth = depth;
  subscript_depth = subscript_depth;
  sequence_depth = sequence_depth;
  bad_node = "invalid node";
  bad_conversion = "bad conversion";
}

abbrev load_file : String → Checked Node
load_file path =
    if str_eq path "flows/hello/script.yaml"
    then value (script (("request", "ask.json") ∷ ("response", "answer.json") ∷ []))
    else if str_eq path "flows/wrong/script.yaml"
    then value (script (("request", "ask.json") ∷ ("response", "other.json") ∷ []))
    else fails "bad file"

-- The templates: the file "other.json" expects something else, "broken.json" does not render.
abbrev render : String → Script Tree
render path =
    if str_eq path "flows/wrong/other.json"
    then text "no"
    else if str_eq path "broken.json"
    then Script.inja_error "unexpected end"
    else text "ok"

abbrev pub host : Host
host = record {
  json = sample;
  yaml = documents;
  Template = String;
  parse_template = λ path. value path;
  render = render;
  inja_message = λ m. m;
  exists = λ path. str_eq path "flows/hello/script.yaml" || str_eq path "flows/wrong/script.yaml";
  is_directory = λ path. true;
  load_file = load_file;
  load_json = λ path. fails "no such file";
  connects = λ ws. true;
  receive = λ clock ws. message "ok";
  exchange = λ clock. echo;
  to_lower = λ s. s;
  indeterminate = 0;
  decimal = λ n. "round";
}

abbrev pub world : World Tree
world = record { store = null; events = []; pool = make_pool; writes = []; clock = 0 }

abbrev pub two_flows : List (String × String)
two_flows = ("hello", "flows/hello/") ∷ ("wrong", "flows/wrong/") ∷ []

-- A third flow, which runs the second one as a subflow.
abbrev load_outer : String → Checked Node
load_outer path =
    if str_eq path "flows/outer/script.yaml"
    then value (script (("run_flow", "wrong") ∷ []))
    else load_file path

abbrev pub nesting : Host
nesting = record host {
  exists = λ path. host.exists path || str_eq path "flows/outer/script.yaml";
  load_file = load_outer;
}

abbrev pub three_flows : List (String × String)
three_flows = ("outer", "flows/outer/") ∷ two_flows
