-- ===== src/Runner/Callbacks/Local.antt =====
-- The callbacks (src/runner.hpp) and the rendering of a template leave the connections alone, and
-- always come back.
use cliot.Prelude.{String, ◌≡◌, refl, Bool, if◌then◌else◌}
use cliot.Json.{Checked, value, fails}
use cliot.Exec.{Exec, Exn, flow, inja, json as json_exn, other, pure, throw, checked, ◌>>=◌}
use cliot.Exec.Triple.{Post, Triple, Triple-pure, Triple-checked, Triple-if, Triple-bind}
use cliot.Host.{Host}
use cliot.Web.Fetcher.{Verb}
use cliot.World.{Frame, World, record_simple}
use cliot.Runner.Callbacks
use cliot.Runner.Callbacks.{
  get_string, get_bool, assign, read_index, store_and_return_cb, store_cb, combine_cb, equal_cb,
  load_cb, assert_cb, report_cb, http_fetch_cb, http_fetch_json_cb,
}

abbrev pub NotFlow : Exn → Type 0
NotFlow (flow e) = ⊥
NotFlow (inja m) = Unit
NotFlow (json_exn m) = Unit
NotFlow (other m) = Unit

module _ (H : Host) (I : World H.json.Json → Type 0) (f : Frame I) where
  open H use {json}
  open json use {Json}

  -- The action keeps the property, whether it returns or throws, it throws no FlowException, and it
  -- comes back.
  abbrev pub Local {ℓ} : {A : Type ℓ} → Exec (World Json) A → Type ℓ
  Local m = Triple I m (λ _. I) (λ e w. I w × NotFlow e) (λ _. ⊥)

  pub Local-bind {ℓ κ} :
      {A : Type ℓ} {B : Type κ} (m : Exec (World Json) A) (k : A → Exec (World Json) B)
      → Local m
      → ((a : A) → Local (k a))
      → Local (m >>= k)
  Local-bind m k lm lk = Triple-bind m k lm lk

  pub Local-pure {ℓ} : {A : Type ℓ} (a : A) → Local (pure a)
  Local-pure a = Triple-pure a

  pub Local-throw_json {ℓ} : {A : Type ℓ} (m : String) → Local {A = A} (throw (json_exn m))
  Local-throw_json m = record { at = λ w h. (h, tt) }

  pub Local-throw_inja {ℓ} : {A : Type ℓ} (m : String) → Local {A = A} (throw (inja m))
  Local-throw_inja m = record { at = λ w h. (h, tt) }

  pub Local-throw_other {ℓ} : {A : Type ℓ} (m : String) → Local {A = A} (throw (other m))
  Local-throw_other m = record { at = λ w h. (h, tt) }

  pub Local-if {ℓ} :
      {A : Type ℓ} (b : Bool) (m n : Exec (World Json) A)
      → Local m
      → Local n
      → Local (if b then m else n)
  Local-if b m n lm ln = Triple-if b m n (λ _. lm) (λ _. ln)

  pub Local-checked_json {ℓ} : {A : Type ℓ} (c : Checked A) → Local (checked json_exn c)
  Local-checked_json c = Triple-checked json_exn c (λ a w _ h. h) (λ m w _ h. (h, tt))

  pub Local-checked_inja {ℓ} : {A : Type ℓ} (c : Checked A) → Local (checked inja c)
  Local-checked_inja c = Triple-checked inja c (λ a w _ h. h) (λ m w _ h. (h, tt))

  pub Local-record_simple : (label message : String) → Local (record_simple label message)
  Local-record_simple label message = record { at = λ w h. f.on_simple w _ h }

  pub Local-get_string : (j : Json) → Local (get_string H j)
  unfolding get_string
  Local-get_string j = Local-if _ _ _ (Local-pure _) (Local-throw_json _)

  pub Local-get_bool : (j : Json) → Local (get_bool H j)
  unfolding get_bool
  Local-get_bool j = Local-if _ _ _ (Local-pure _) (Local-throw_json _)

  pub Local-assign : (var : String) (v : Json) → Local (assign H var v)
  unfolding assign
  Local-assign var v = record { at = λ w h. split w h (json.set w.store var v) refl }
    where
      split :
          (w : World Json)
          → I w
          → (c : Checked Json) → json.set w.store var v ≡ c
          → Post
              (λ _. I)
              (λ e w. I w × NotFlow e)
              (λ _. ⊥)
              (assign H var v w).0
              (assign H var v w).1
      split w h (value st) e = rw (e, assign) (f.on_store w st h)
      split w h (fails m) e = rw (e, assign) (h, tt)

  pub Local-read_index : (var : String) → Local (read_index H var)
  unfolding read_index
  Local-read_index var = record { at = λ w h. split w h (json.index w.store var) refl }
    where
      split :
          (w : World Json)
          → I w
          → (c : Checked (Json × Json)) → json.index w.store var ≡ c
          → Post
              (λ _. I)
              (λ e w. I w × NotFlow e)
              (λ _. ⊥)
              (read_index H var w).0
              (read_index H var w).1
      split w h (value (v, st)) e = rw (e, read_index) (f.on_store w st h)
      split w h (fails m) e = rw (e, read_index) (h, tt)

  pub Local-fetch : (url : String) (method : Verb) → Local (Callbacks.fetch H url method)
  unfolding Callbacks.fetch
  Local-fetch url method = record { at = λ w h. f.on_clock w _ h }

  pub ruleset local_rules = (
    Local-bind, Local-pure, Local-throw_json, Local-throw_inja, Local-throw_other, Local-if,
    Local-checked_json, Local-checked_inja, Local-record_simple, Local-get_string, Local-get_bool,
    Local-assign, Local-read_index, Local-fetch,
  )

  pub Local-store_and_return_cb : (a b : Json) → Local (store_and_return_cb H a b)
  unfolding store_and_return_cb
  Local-store_and_return_cb a b = search local_rules depth 12

  pub Local-store_cb : (a b : Json) → Local (store_cb H a b)
  unfolding store_cb
  Local-store_cb a b = search local_rules depth 12

  pub Local-combine_cb : (a b : Json) → Local (combine_cb H a b)
  unfolding combine_cb
  Local-combine_cb a b = search local_rules depth 12

  pub Local-equal_cb : (a b : Json) → Local (equal_cb H a b)
  unfolding equal_cb
  Local-equal_cb a b = search local_rules depth 12

  pub Local-load_cb : (a : Json) → Local (load_cb H a)
  unfolding load_cb
  Local-load_cb a = search local_rules depth 12

  pub Local-assert_cb : (a b : Json) → Local (assert_cb H a b)
  unfolding assert_cb
  Local-assert_cb a b = search local_rules depth 12

  pub Local-report_cb : (a : Json) → Local (report_cb H a)
  unfolding report_cb
  Local-report_cb a = search local_rules depth 12

  pub Local-http_fetch_cb : (a b : Json) → Local (http_fetch_cb H a b)
  unfolding http_fetch_cb
  Local-http_fetch_cb a b = search local_rules depth 12

  pub Local-http_fetch_json_cb : (a b : Json) → Local (http_fetch_json_cb H a b)
  unfolding http_fetch_json_cb
  Local-http_fetch_json_cb a b = search local_rules depth 12
