-- ===== src/Runner/Templates.antt =====
-- Rendering a template: inja's script with the callbacks of the flow's environment (src/runner.hpp).
pub mod Local
use cliot.Prelude.{String}
use cliot.Exec.{Exec, inja, json as json_exn, pure, throw, checked, ◌>>=◌, ◌>>◌}
use cliot.Host.{
  Host, Script, text, inja_error, json_error, reads, store_and_return, store, combine, equal, load,
  assert_that, report, fetch, fetch_json,
}
use cliot.World.{World}
use cliot.Runner.Callbacks.{
  store_and_return_cb, store_cb, combine_cb, equal_cb, load_cb, assert_cb, report_cb, http_fetch_cb,
  http_fetch_json_cb,
}

module _ (H : Host) where
  open H use {json}
  open json use {Json}

  -- The value of a void callback is null.
  pub run_script : Script Json → Exec (World Json) String
  run_script (text t) = pure t
  run_script (inja_error m) = throw (inja m)
  run_script (json_error m) = throw (json_exn m)
  run_script (reads k) = λ w. run_script (k w.store) w
  run_script (store_and_return a b k) = store_and_return_cb H a b >>= λ v. run_script (k v)
  run_script (store a b k) = store_cb H a b >> run_script (k json.null)
  run_script (combine a b k) = combine_cb H a b >>= λ v. run_script (k v)
  run_script (equal a b k) = equal_cb H a b >>= λ v. run_script (k v)
  run_script (load a k) = load_cb H a >>= λ v. run_script (k v)
  run_script (assert_that a b k) = assert_cb H a b >> run_script (k json.null)
  run_script (report a k) = report_cb H a >> run_script (k json.null)
  run_script (fetch a b k) = http_fetch_cb H a b >> run_script (k json.null)
  run_script (fetch_json a b k) = http_fetch_json_cb H a b >> run_script (k json.null)

  -- env.parse_template(path) and env.render(temp, store)
  pub render_template : String → Exec (World Json) String
  render_template path = do temp ← checked inja (H.parse_template path); run_script (H.render temp)
