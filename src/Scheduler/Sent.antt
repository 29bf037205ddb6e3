-- ===== src/Scheduler/Sent.antt =====
-- The requests that a run reports, and the texts that it gives to the sessions to write
-- (src/scheduler.hpp).
use cliot.Prelude.{ℕ, ◌≡◌, refl, false, List, [], ◌∷◌, String}
use cliot.Reporting.Events.{success, failure}
use cliot.Exec.{Exec, Exn, flow, inja, json as json_exn, other}
use cliot.Exec.Triple.{Post, Post-weaken, Triple, Triple-pure, Triple-bind, Triple-catch}
use cliot.Host.{Host}
use cliot.World.{World}
use cliot.Runner.Flows.Nested.{top_keeps}
use cliot.Reporting.Requests.{reported, ShowAll}
use cliot.Runner.Flows.Sent.{Truthful, quiet, Truthful-Parts}
use cliot.Scheduler.{on_failure, run_one, run_all}

module _ (H : Host) where
  open H use {json}
  open json use {Json}

  abbrev Keeps {ℓ} : {A : Type ℓ} → Exec (World Json) A → Type ℓ
  Keeps m = Triple (Truthful H) m (λ _. Truthful H) (λ _. Truthful H) (λ _. Unit {0})

  on_failure-Keeps : (name : String) (e : Exn) → Keeps (on_failure H name e)
  unfolding on_failure
  on_failure-Keeps name (flow e) = record { at = λ w h. quiet H w (failure _) refl h }
  on_failure-Keeps name (inja m) = record { at = λ w h. h }
  on_failure-Keeps name (json_exn m) = record { at = λ w h. h }
  on_failure-Keeps name (other m) = record { at = λ w h. h }

  run_one-Keeps : (depth : ℕ) (name dir : String) → Keeps (run_one H depth name dir)
  unfolding run_one
  run_one-Keeps depth name dir =
      Triple-catch {E = λ _. Truthful H} _ _
        (Triple-bind _ _ (top_keeps H (Truthful H) (Truthful-Parts H) depth name dir)
          (λ _. record { at = λ w h. quiet H w (success _) refl h }))
        (λ e. on_failure-Keeps name e)

  run_all-Keeps : (depth : ℕ) (flows : List (String × String)) → Keeps (run_all H depth flows)
  unfolding run_all
  run_all-Keeps depth [] = Triple-pure 0
  run_all-Keeps depth ((name, dir) ∷ rest) =
      Triple-bind _ _ (run_one-Keeps depth name dir) (λ _. run_all-Keeps depth rest)

  -- From a state with a running pool and with nothing reported or written: when a run has returned or
  -- thrown, the requests that it reported and its calls of WebSocketSession::write are equally many,
  -- and the data that a report shows are the dump of the JSON value of the text that the call in its
  -- place was given.
  pub run_all-ShowAll :
      (depth : ℕ) (flows : List (String × String)) (w : World Json)
      → w.pool.stop_requested ≡ false
      → w.events ≡ []
      → w.writes ≡ []
      → Post
          (λ _ v. ShowAll json (reported v.events) v.writes)
          (λ _ v. ShowAll json (reported v.events) v.writes)
          (λ _. Unit {0})
          (run_all H depth flows w).0
          (run_all H depth flows w).1
  run_all-ShowAll depth flows w running e s =
      Post-weaken {W = World Json} (λ _. Truthful H) _ (λ _. Truthful H) _ (λ _. Unit {0}) _ _ _
        (λ a h. h.1) (λ x h. h.1) (λ n u. u)
        ((run_all-Keeps depth flows).at w (running, rw (e, s) tt))
