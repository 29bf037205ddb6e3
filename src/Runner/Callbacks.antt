-- ===== src/Runner/Callbacks.antt =====
-- The callbacks that FlowRunner::register_extensions adds to the template environment
-- (src/runner.hpp), and the fetcher behind two of them (src/web/fetcher.cpp).
pub mod Local
use cliot.Prelude.{ℕ, suc, String, ◌+++◌, Bool, true, false, not, str_eq, if◌then◌else◌}
use cliot.Json.{Checked, value, fails}
use cliot.Exec.{
  Exec, Exn, json as json_exn, other, pure, throw, checked, modify, ◌>>=◌, ◌>>◌, Outcome, returns,
  throws, halts,
}
use cliot.Host.{Host}
use cliot.Web.Fetcher.{Verb, get, post, fetch_body}
use cliot.World.{World, with_store, record_simple}

module _ (H : Host) where
  open H use {json, exchange, to_lower}
  open json use {Json}

  -- get<std::string>() and get<bool>(), which throw on a value of another type.
  unfoldable pub get_string : Json → Exec (World Json) String
  get_string j =
      if json.is_string j then pure (json.as_string j) else throw (json_exn (json.type_error j))

  unfoldable pub get_bool : Json → Exec (World Json) Bool
  get_bool j =
      if json.is_boolean j then pure (json.as_bool j) else throw (json_exn (json.type_error j))

  -- store[var] = value
  unfoldable pub assign : String → Json → Exec (World Json) (Unit {0})
  assign var v w = elim (json.set w.store var v) [
    | value store ↦ (returns tt, with_store w store)
    | fails m ↦ (throws (json_exn m), w)
  ]

  pub store_and_return_cb : Json → Json → Exec (World Json) Json
  unfolding get_string assign
  store_and_return_cb v name = do var ← get_string name; assign var v; pure v

  pub store_cb : Json → Json → Exec (World Json) (Unit {0})
  unfolding get_string assign
  store_cb v name = do var ← get_string name; assign var v

  pub combine_cb : Json → Json → Exec (World Json) Json
  combine_cb value1 value2 = checked json_exn (json.extend value1 value2)

  pub equal_cb : Json → Json → Exec (World Json) Json
  equal_cb value1 value2 = pure (json.of_bool (json.same value1 value2))

  -- The writable operator[]: a key that is missing is added.
  unfoldable pub read_index : String → Exec (World Json) Json
  read_index var w = elim (json.index w.store var) [
    | value (v, store) ↦ (returns v, with_store w store)
    | fails m ↦ (throws (json_exn m), w)
  ]

  pub load_cb : Json → Exec (World Json) Json
  unfolding get_string read_index
  load_cb name = do var ← get_string name; read_index var

  pub assert_cb : Json → Json → Exec (World Json) (Unit {0})
  unfolding get_bool get_string
  assert_cb condition text = do
    holds ← get_bool condition
    msg ← get_string text
    if not holds then throw (other msg) else pure tt

  pub report_cb : Json → Exec (World Json) (Unit {0})
  unfolding get_string
  report_cb text = do message ← get_string text; record_simple "CUSTOM" message

  -- The handler of OnDemandFetcher::fetch returns the exception's text as if it were the body.
  unfoldable pub fetched : Checked String → String
  fetched (value body) = body
  fetched (fails m) = m

  -- OnDemandFetcher::fetch
  unfoldable pub fetch : String → Verb → Exec (World Json) String
  unfolding fetched
  fetch url method w = (
    returns (fetched (fetch_body to_lower (exchange w.clock) url method)),
    record w { clock = suc w.clock },
  )

  -- ConnectionManager::get and ConnectionManager::post
  abbrev get_url : String → Exec (World Json) String
  get_url url = fetch url get

  abbrev post_url : String → Exec (World Json) String
  post_url url = fetch url post

  pub http_fetch_cb : Json → Json → Exec (World Json) (Unit {0})
  unfolding get_string fetch assign
  http_fetch_cb address name = do
    url ← get_string address
    var ← get_string name
    record_simple "FETCH" (url +++ " into " +++ var)
    body ← get_url url
    if not (str_eq body "") then assign var (json.of_string body) else pure tt

  pub http_fetch_json_cb : Json → Json → Exec (World Json) (Unit {0})
  unfolding get_string fetch assign
  http_fetch_json_cb address name = do
    url ← get_string address
    var ← get_string name
    record_simple "FETCH JSON" (url +++ " into " +++ var)
    body ← post_url url
    if not (str_eq body "")
        then (checked json_exn (json.parse body) >>= λ parsed. assign var parsed)
        else pure tt
