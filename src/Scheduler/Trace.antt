-- ===== src/Scheduler/Trace.antt =====
-- What the scheduler reports of failures (src/scheduler.hpp): where each came from in the scripts.
mod Tests
use cliot.Prelude.{
  ℕ, String, ◌≡◌, List, [], ◌∷◌, ◌++◌, In, here, there, subst, sym, append-nil, append_assoc,
}
use cliot.Reporting.Events.{FailureEvent, Event, simple, success, failure, request, response}
use cliot.Exec.{Exn, FlowException, flow, inja, json as json_exn, other}
use cliot.Exec.Triple.{Post, Post-both, Triple, Triple-pure, Triple-bind, Triple-catch}
use cliot.Host.{Host}
use cliot.World.{World}
use cliot.Runner.Flows.{run_top}
use cliot.Runner.Flows.Steady.{IsSteady}
use cliot.Runner.Flows.Nested.{steady_top}
use cliot.Runner.Flows.Raises.{Fails}
use cliot.Runner.Flows.Failing.{FailsAt}
use cliot.Runner.Flows.Trace.{Raises-run_top}
use cliot.Scheduler.{on_failure, run_one, run_all}

module _ (H : Host) where
  open H use {json}
  open json use {Json}

  -- What the event of a failure says of the exception.
  abbrev thrown : FailureEvent → FlowException
  thrown ev = record { path = ev.path; issues = ev.issues; response = ev.response }

  -- If the event after the reports `before` is that of a failure, then it is of one of the flows, which
  -- failed at a step of its script after exactly these reports.
  abbrev pub IsTraced : List (String × String) → List (Event Json) → Event Json → Type 0
  IsTraced flows before (failure ev) =
      (dir : String) × In (ev.flow_name, dir) flows × FailsAt H dir (thrown ev) before
  IsTraced flows before ev = Unit

  -- So it is of all events that follow the reports `before`.
  abbrev pub Traced : List (String × String) → List (Event Json) → List (Event Json) → Type 0
  Traced flows before [] = Unit
  Traced flows before (ev ∷ evs) = IsTraced flows before ev × Traced flows (before ++ ev ∷ []) evs

  module _ (flows : List (String × String)) where
    abbrev Explained : World Json → Type 0
    Explained w = Traced flows [] w.events

    Traced-append :
        (before evs : List (Event Json)) (ev : Event Json)
        → Traced flows before evs
        → IsTraced flows (before ++ evs) ev
        → Traced flows before (evs ++ ev ∷ [])
    Traced-append before [] ev h n = (subst (λ b. IsTraced flows b ev) (append-nil before) n, tt)
    Traced-append before (x ∷ evs) ev h n = (
      h.0,
      Traced-append (before ++ x ∷ []) evs ev h.1
          (subst (λ b. IsTraced flows b ev) (sym (append_assoc before (x ∷ []) evs)) n),
    )

    one_more :
        (evs : List (Event Json)) (ev : Event Json)
        → Traced flows [] evs
        → IsTraced flows evs ev
        → Traced flows [] (evs ++ ev ∷ [])
    one_more evs ev h n = Traced-append [] evs ev h n

    Explained-IsSteady : IsSteady {Json = Json} Explained
    Explained-IsSteady = record {
      frame = record {
        on_store = λ w s h. h;
        on_clock = λ w n h. h;
        on_simple = λ w ev h. one_more w.events (simple ev) h tt;
        on_response = λ w ev h. one_more w.events (response ev) h tt;
      };
      on_request = λ w ev h. one_more w.events (request ev) h tt;
      on_pool = λ w p h. h;
      on_writes = λ w s h. h;
    }

    on_failure-Explained :
        (name dir : String) (e : Exn)
        → In (name, dir) flows
        → Triple
            (λ w. Explained w × Fails H (FailsAt H dir) e w)
            (on_failure H name e)
            (λ _. Explained)
            (λ _. Explained)
            (λ _. Unit {0})
    unfolding on_failure
    on_failure-Explained name dir (flow e) i = record {
      at = λ w h. one_more w.events (failure _) h.0 (dir, i, h.1);
    }
    on_failure-Explained name dir (inja m) i = record { at = λ w h. h.0 }
    on_failure-Explained name dir (json_exn m) i = record { at = λ w h. h.0 }
    on_failure-Explained name dir (other m) i = record { at = λ w h. h.0 }

    run_top-Explained :
        (depth : ℕ) (name dir : String)
        → Triple Explained
            (run_top H depth name dir)
            (λ _. Explained)
            (λ e w. Explained w × Fails H (FailsAt H dir) e w)
            (λ _. Unit {0})
    run_top-Explained depth name dir = record {
      at = λ w h.
          Post-both (λ _. Explained) (λ _. Explained) (Fails H (FailsAt H dir)) (λ _. Unit {0})
            (λ _. Unit {0}) (λ _ _. Unit {0}) _ _
            ((steady_top H Explained Explained-IsSteady depth name dir).at w h)
            ((Raises-run_top H depth name dir).at w tt);
    }

    run_one-Explained :
        (depth : ℕ) (name dir : String)
        → In (name, dir) flows
        → Triple Explained
            (run_one H depth name dir)
            (λ _. Explained)
            (λ _. Explained)
            (λ _. Unit {0})
    unfolding run_one
    run_one-Explained depth name dir i =
        Triple-catch {E = λ e w. Explained w × Fails H (FailsAt H dir) e w} _ _
          (Triple-bind _ _ (run_top-Explained depth name dir)
            (λ _. record { at = λ w h. one_more w.events (success _) h tt }))
          (λ e. on_failure-Explained name dir e i)

    run_all-Explained :
        (depth : ℕ) (rest : List (String × String))
        → ((f : String × String) → In f rest → In f flows)
        → Triple Explained (run_all H depth rest) (λ _. Explained) (λ _. Explained) (λ _. Unit {0})
    unfolding run_all
    run_all-Explained depth [] inside = Triple-pure 0
    run_all-Explained depth ((name, dir) ∷ rest) inside =
        Triple-bind _ _ (run_one-Explained depth name dir (inside (name, dir) here))
          (λ _. run_all-Explained depth rest (λ f i. inside f (there i)))

  pub run_all-Traced :
      (depth : ℕ) (flows : List (String × String)) (w : World Json)
      → w.events ≡ []
      → Post
          (λ _ v. Traced flows [] v.events)
          (λ _ v. Traced flows [] v.events)
          (λ _. Unit {0})
          (run_all H depth flows w).0
          (run_all H depth flows w).1
  run_all-Traced depth flows w e =
      (run_all-Explained flows depth flows (λ f i. i)).at w (subst (Traced flows []) (sym e) tt)
