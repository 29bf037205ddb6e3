-- ===== src/Scheduler/Isolated.antt =====
-- The stores of top-level flows (src/scheduler.hpp, FlowRunner::run of src/runner.hpp).
mod Tests
use cliot.Prelude.{
  ℕ, String, ◌≡◌, refl, ap, sym, ◌∙◌, true, false, inl, inr, List, [], ◌∷◌, Bool-cases,
  if◌then◌else◌,
}
use cliot.Json.{Checked, value, fails}
use cliot.Exec.{
  Exec, Exn, Outcome, returns, throws, halts, flow, inja, json as json_exn, other, pure, throw,
  checked, catch, handle, continue, modify, ◌>>=◌, ◌>>◌,
}
use cliot.Host.{Host}
use cliot.Reporting.Events.{Event, success, failure}
use cliot.World.{World, with_store, with_event, record_event}
use cliot.Flow.FilePath.{◌//◌}
use cliot.Runner.Flows.{env_json, run_top}
use cliot.Scheduler.{on_failure, run_one, run_all}

module _ (H : Host) where
  open H use {json}
  open json use {Json}

  -- The same but for the store.
  abbrev pub Same : World Json → World Json → Type 0
  Same u v = with_store u json.null ≡ with_store v json.null

  -- Same results and same states but for the store.
  abbrev pub SameEnd : {A : Type 0} → Outcome A × World Json → Outcome A × World Json → Type 0
  SameEnd (r, u) (o, v) = (r ≡ o) × Same u v

  -- The store at the beginning makes no difference but in the store at the end.
  abbrev Ignores : {A : Type 0} → Exec (World Json) A → Type 0
  Ignores m = (u v : World Json) → Same u v → SameEnd (m u) (m v)

  handled :
      {A : Type 0} (h : Exn → Exec (World Json) A) (r : Outcome A) (u v : World Json)
      → ((e : Exn) → Ignores (h e))
      → Same u v
      → SameEnd (handle r h u) (handle r h v)
  handled h (returns a) u v t s = (refl, s)
  handled h (throws e) u v t s = t e u v s
  handled h (halts x) u v t s = (refl, s)

  Ignores-catch :
      {A : Type 0} (m : Exec (World Json) A) (h : Exn → Exec (World Json) A)
      → Ignores m
      → ((e : Exn) → Ignores (h e))
      → Ignores (catch m h)
  unfolding catch
  Ignores-catch m h t th u v s =
      let (a, b) = t u v s in rw a (handled h (m v).0 (m u).1 (m v).1 th b)

  continued :
      {A B : Type 0} (f : A → Exec (World Json) B) (r : Outcome A) (u v : World Json)
      → ((a : A) → Ignores (f a))
      → Same u v
      → SameEnd (continue r f u) (continue r f v)
  continued f (returns a) u v t s = t a u v s
  continued f (throws e) u v t s = (refl, s)
  continued f (halts x) u v t s = (refl, s)

  Ignores-bind :
      {A B : Type 0} (m : Exec (World Json) A) (f : A → Exec (World Json) B)
      → Ignores m
      → ((a : A) → Ignores (f a))
      → Ignores (m >>= f)
  unfolding ◌>>=◌
  Ignores-bind m f t tf u v s =
      let (a, b) = t u v s in rw a (continued f (m v).0 (m u).1 (m v).1 tf b)

  Ignores-checked :
      {A : Type 0} (f : String → Exn) (c : Checked A) → Ignores (checked {W = World Json} f c)
  Ignores-checked f (value a) u v s = (refl, s)
  Ignores-checked f (fails m) u v s = (refl, s)

  Ignores-env_json : (path : String) → Ignores (env_json H path)
  unfolding env_json
  Ignores-env_json path u v s = elim (Bool-cases (H.exists (path // "env.json"))) [
    | inl e ↦ rw e (
        Ignores-bind _ _ (Ignores-checked inja (H.load_json (path // "env.json")))
          (λ parsed. Ignores-checked json_exn parsed) u v s)
    | inr e ↦ rw e ((refl, s))
  ]

  -- What begins by setting the store is the same from both states.
  Ignores-set_store :
      {A : Type 0} (store : Json) (m : Exec (World Json) A)
      → Ignores (modify (λ w. with_store w store) >> m)
  unfolding ◌>>=◌
  Ignores-set_store store m u v s =
      let e : with_store u store ≡ with_store v store = ap (λ w. with_store w store) s in
      rw e ((refl, refl))

  Ignores-record_event : (ev : Event Json) → Ignores (record_event ev)
  Ignores-record_event ev u v s = (refl, ap (λ w. with_event w ev) s)

  Ignores-on_failure : (name : String) (e : Exn) → Ignores (on_failure H name e)
  unfolding on_failure
  Ignores-on_failure name (flow e) = Ignores-record_event (
      failure
        (record { flow_name = name; path = e.path; issues = e.issues; response = e.response }))
  Ignores-on_failure name (inja m) = λ u v s. (refl, s)
  Ignores-on_failure name (json_exn m) = λ u v s. (refl, s)
  Ignores-on_failure name (other m) = λ u v s. (refl, s)

  Ignores-run_top : (depth : ℕ) (name path : String) → Ignores (run_top H depth name path)
  unfolding run_top
  Ignores-run_top depth name path =
      Ignores-bind _ _ (Ignores-env_json path) (λ store. Ignores-set_store store _)

  Ignores-run_all : (depth : ℕ) (flows : List (String × String)) → Ignores (run_all H depth flows)
  unfolding run_all run_one
  Ignores-run_all depth [] = λ u v s. (refl, s)
  Ignores-run_all depth ((name, dir) ∷ rest) =
      Ignores-bind _ _
        (Ignores-catch _ _
          (Ignores-bind _ _ (Ignores-run_top depth name dir)
            (λ _. Ignores-record_event (success (record { flow_name = name }))))
          (λ e. Ignores-on_failure name e))
        (λ _. Ignores-run_all depth rest)

  -- Top-level flows are isolated: whatever store there is when the remaining flows are run, as an earlier
  -- flow may have left it, their run has the same result, and the same reports, texts written and
  -- connections; only the store at its end may differ.
  pub run_all_isolated :
      (depth : ℕ) (flows : List (String × String)) (w : World Json) (store : Json)
      → SameEnd (run_all H depth flows (with_store w store)) (run_all H depth flows w)
  run_all_isolated depth flows w store = Ignores-run_all depth flows (with_store w store) w refl
