-- ===== src/Scheduler/Verdicts.antt =====
-- What the scheduler reports (src/scheduler.hpp): one verdict for each flow, in order.
use cliot.Prelude.{
  ℕ, ◌≡◌, ◌≢◌, refl, sym, ap, ◌∙◌, List, [], ◌∷◌, ◌++◌, String, append-nil, append_assoc,
}
use cliot.Reporting.Events.{Event, simple, success, failure, request, response}
use cliot.Exec.{Exn, flow, inja, json as json_exn, other}
use cliot.Exec.Triple.{Post, Post-weaken, Triple, Triple-bind, Triple-catch}
use cliot.Host.{Host}
use cliot.World.{World}
use cliot.Runner.Callbacks.Local.{NotFlow}
use cliot.Runner.Flows.Steady.{IsSteady}
use cliot.Runner.Flows.Nested.{steady_top}
use cliot.Scheduler.{on_failure, run_one, run_all}

-- The names in the success and failure events.
abbrev pub verdicts : {Json : Type 0} → List (Event Json) → List String
verdicts [] = []
verdicts (simple ev ∷ evs) = verdicts evs
verdicts (success ev ∷ evs) = ev.flow_name ∷ verdicts evs
verdicts (failure ev ∷ evs) = ev.flow_name ∷ verdicts evs
verdicts (request ev ∷ evs) = verdicts evs
verdicts (response ev ∷ evs) = verdicts evs

abbrev pub names : List (String × String) → List String
names [] = []
names ((name, dir) ∷ rest) = name ∷ names rest

verdicts-append :
    {Json : Type 0} (xs ys : List (Event Json)) → verdicts (xs ++ ys) ≡ verdicts xs ++ verdicts ys
verdicts-append [] ys = refl
verdicts-append (simple ev ∷ xs) ys = verdicts-append xs ys
verdicts-append (success ev ∷ xs) ys = ap (◌∷◌ ev.flow_name) (verdicts-append xs ys)
verdicts-append (failure ev ∷ xs) ys = ap (◌∷◌ ev.flow_name) (verdicts-append xs ys)
verdicts-append (request ev ∷ xs) ys = verdicts-append xs ys
verdicts-append (response ev ∷ xs) ys = verdicts-append xs ys

module _ (H : Host) where
  open H use {json}
  open json use {Json}

  abbrev pub Reported : List String → World Json → Type 0
  Reported vs w = verdicts w.events ≡ vs

  other_event :
      (vs : List String) (evs : List (Event Json)) (ev : Event Json)
      → verdicts (ev ∷ []) ≡ []
      → verdicts evs ≡ vs
      → verdicts (evs ++ ev ∷ []) ≡ vs
  other_event vs evs ev e h = verdicts-append evs (ev ∷ []) ∙ (rw (e, append-nil) h)

  -- No step of a flow reports a verdict.
  pub Reported-steady : (vs : List String) → IsSteady {Json = Json} (Reported vs)
  Reported-steady vs = record {
    frame = record {
      on_store = λ w s h. h;
      on_clock = λ w n h. h;
      on_simple = λ w ev h. other_event vs w.events (simple ev) refl h;
      on_response = λ w ev h. other_event vs w.events (response ev) refl h;
    };
    on_request = λ w ev h. other_event vs w.events (request ev) refl h;
    on_pool = λ w p h. h;
    on_writes = λ w s h. h;
  }

  verdict_event :
      (vs : List String) (name : String) (evs : List (Event Json)) (ev : Event Json)
      → verdicts (ev ∷ []) ≡ name ∷ []
      → verdicts evs ≡ vs
      → verdicts (evs ++ ev ∷ []) ≡ vs ++ name ∷ []
  verdict_event vs name evs ev e h = verdicts-append evs (ev ∷ []) ∙ rw (e, h) refl

  on_failure-Reported :
      (vs : List String) (name : String) (e : Exn)
      → Triple
          (Reported vs)
          (on_failure H name e)
          (λ _. Reported (vs ++ name ∷ []))
          (λ x w. Reported vs w × NotFlow x)
          (λ _. Unit {0})
  unfolding on_failure
  on_failure-Reported vs name (flow e) = record {
    at = λ w h. verdict_event vs name w.events (failure _) refl h;
  }
  on_failure-Reported vs name (inja m) = record { at = λ w h. (h, tt) }
  on_failure-Reported vs name (json_exn m) = record { at = λ w h. (h, tt) }
  on_failure-Reported vs name (other m) = record { at = λ w h. (h, tt) }

  run_one-Reported :
      (vs : List String) (depth : ℕ) (name dir : String)
      → Triple
          (Reported vs)
          (run_one H depth name dir)
          (λ _. Reported (vs ++ name ∷ []))
          (λ x w. Reported vs w × NotFlow x)
          (λ _. Unit {0})
  unfolding run_one
  run_one-Reported vs depth name dir =
      Triple-catch {E = λ _. Reported vs} _ _
        (Triple-bind _ _ (steady_top H (Reported vs) (Reported-steady vs) depth name dir)
          (λ _. record { at = λ w h. verdict_event vs name w.events (success _) refl h }))
        (λ e. on_failure-Reported vs name e)

  -- How far a run came that ended by an exception: some flows have their verdicts, and the next has none.
  abbrev pub StoppedEarly : List String → List (String × String) → World Json → Type 0
  StoppedEarly vs flows w =
      (done : List String) × (rest : List String) × (names flows ≡ done ++ rest)
      × (rest ≢ [])
      × (verdicts w.events ≡ vs ++ done)

  later :
      (vs : List String) (name dir : String) (rest : List (String × String)) (w : World Json)
      → StoppedEarly (vs ++ name ∷ []) rest w
      → StoppedEarly vs ((name, dir) ∷ rest) w
  later vs name dir rest w (done, left, e, some_left, r) =
      (name ∷ done, left, ap (◌∷◌ name) e, some_left, r ∙ append_assoc vs (name ∷ []) done)

  pub run_all-Reported :
      (vs : List String) (depth : ℕ) (flows : List (String × String))
      → Triple
          (Reported vs)
          (run_all H depth flows)
          (λ r w. (r ≡ 0) × Reported (vs ++ names flows) w)
          (λ x w. NotFlow x × StoppedEarly vs flows w)
          (λ _. Unit {0})
  unfolding run_all
  run_all-Reported vs depth [] = record { at = λ w h. (refl, h ∙ sym (append-nil vs)) }
  run_all-Reported vs depth ((name, dir) ∷ rest) =
      Triple-bind {Q = λ _. Reported (vs ++ name ∷ [])} _ _
        (record {
          at = λ w h.
              Post-weaken (λ _. Reported (vs ++ name ∷ [])) (λ _. Reported (vs ++ name ∷ []))
                (λ x v. Reported vs v × NotFlow x)
                (λ x v. NotFlow x × StoppedEarly vs ((name, dir) ∷ rest) v) (λ _. Unit {0})
                (λ _. Unit {0}) _ _ (λ a q. q)
                (λ x p. (p.1, ([], name ∷ names rest, refl, (λ e. cc), p.0 ∙ sym (append-nil vs))))
                (λ n u. u) ((run_one-Reported vs depth name dir).at w h);
        })
        (λ _. record {
          at = λ w h.
              Post-weaken (λ r v. (r ≡ 0) × Reported ((vs ++ name ∷ []) ++ names rest) v)
                (λ r v. (r ≡ 0) × Reported (vs ++ name ∷ names rest) v)
                (λ x v. NotFlow x × StoppedEarly (vs ++ name ∷ []) rest v)
                (λ x v. NotFlow x × StoppedEarly vs ((name, dir) ∷ rest) v) (λ _. Unit {0})
                (λ _. Unit {0}) _ _ (λ a q. (q.0, q.1 ∙ append_assoc vs (name ∷ []) (names rest)))
                (λ x p. (p.0, later vs name dir rest (run_all H depth rest w).1 p.1)) (λ n u. u)
                ((run_all-Reported (vs ++ name ∷ []) depth rest).at w h);
        })

  -- From a state with no events: a run that returns gives EXIT_SUCCESS and has reported, for each flow
  -- and in their order, exactly one success or failure. A run that throws ends with an exception that
  -- is no FlowException: the flows before the one that threw have their verdicts, and that one and
  -- those after it have none.
  pub run_all-verdicts :
      (depth : ℕ) (flows : List (String × String)) (w : World Json)
      → w.events ≡ []
      → Post
          (λ r v. (r ≡ 0) × (verdicts v.events ≡ names flows))
          (λ x v. NotFlow x × StoppedEarly [] flows v)
          (λ _. Unit {0})
          (run_all H depth flows w).0
          (run_all H depth flows w).1
  run_all-verdicts depth flows w e = (run_all-Reported [] depth flows).at w (ap verdicts e)
