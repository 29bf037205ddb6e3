-- ===== src/Runner/Templates/Local.antt =====
-- Rendering a template leaves the connections alone, and always comes back (src/runner.hpp).
use cliot.Prelude.{String}
use cliot.Host.{
  Host, Script, text, inja_error, json_error, reads, store_and_return, store, combine, equal, load,
  assert_that, report, fetch, fetch_json,
}
use cliot.World.{Frame, World}
use cliot.Runner.Templates.{run_script, render_template}
use cliot.Runner.Callbacks.Local.{
  Local, Local-pure, Local-throw_inja, Local-throw_json, Local-bind, local_rules,
  Local-store_and_return_cb, Local-store_cb, Local-combine_cb, Local-equal_cb, Local-load_cb,
  Local-assert_cb, Local-report_cb, Local-http_fetch_cb, Local-http_fetch_json_cb,
}

module _ (H : Host) (I : World H.json.Json → Type 0) (f : Frame I) where
  open H use {json}
  open json use {Json}

  pub Local-run_script : (s : Script Json) → Local H I f (run_script H s)
  unfolding run_script
  Local-run_script (text t) = Local-pure H I f t
  Local-run_script (inja_error m) = Local-throw_inja H I f m
  Local-run_script (json_error m) = Local-throw_json H I f m
  Local-run_script (reads k) = record { at = λ w. (Local-run_script (k w.store)).at w }
  Local-run_script (store_and_return a b k) =
      Local-bind H I f _ _ (Local-store_and_return_cb H I f a b) (λ v. Local-run_script (k v))
  Local-run_script (store a b k) =
      Local-bind H I f _ _ (Local-store_cb H I f a b) (λ _. Local-run_script (k json.null))
  Local-run_script (combine a b k) =
      Local-bind H I f _ _ (Local-combine_cb H I f a b) (λ v. Local-run_script (k v))
  Local-run_script (equal a b k) =
      Local-bind H I f _ _ (Local-equal_cb H I f a b) (λ v. Local-run_script (k v))
  Local-run_script (load a k) =
      Local-bind H I f _ _ (Local-load_cb H I f a) (λ v. Local-run_script (k v))
  Local-run_script (assert_that a b k) =
      Local-bind H I f _ _ (Local-assert_cb H I f a b) (λ _. Local-run_script (k json.null))
  Local-run_script (report a k) =
      Local-bind H I f _ _ (Local-report_cb H I f a) (λ _. Local-run_script (k json.null))
  Local-run_script (fetch a b k) =
      Local-bind H I f _ _ (Local-http_fetch_cb H I f a b) (λ _. Local-run_script (k json.null))
  Local-run_script (fetch_json a b k) =
      Local-bind H I f _ _ (Local-http_fetch_json_cb H I f a b)
        (λ _. Local-run_script (k json.null))

  pub Local-render_template : (path : String) → Local H I f (render_template H path)
  unfolding render_template
  Local-render_template path = search (local_rules, Local-run_script)
