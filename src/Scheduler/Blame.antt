-- ===== src/Scheduler/Blame.antt =====
-- What the scheduler reports of failures (src/scheduler.hpp): each names what went wrong.
use cliot.Prelude.{ℕ, String, ◌≡◌, ◌≢◌, List, [], ◌∷◌, ◌++◌, All}
use cliot.Reporting.Events.{Event, simple, success, failure, request, response}
use cliot.Exec.{FlowException}
use cliot.Exec.Triple.{Post, Post-weaken}
use cliot.Host.{Host}
use cliot.World.{World}
use cliot.Runner.Flows.{FlowStep}
use cliot.Runner.Flows.Failing.{FailsIn, request_fails, response_fails, subflow_fails, block_fails}
use cliot.Scheduler.{run_all}
use cliot.Scheduler.Trace.{Traced, run_all-Traced}

-- If it reports a failure, then it names an issue.
abbrev pub NamesWhy : {Json : Type 0} → Event Json → Type 0
NamesWhy (failure ev) = ev.issues ≢ []
NamesWhy ev = Unit

append-one-ne-nil : {A : Type 0} (xs : List A) (x : A) → xs ++ x ∷ [] ≢ []
append-one-ne-nil [] x e = cc
append-one-ne-nil (y ∷ xs) x e = cc

module _ (H : Host) where
  open H use {json}
  open json use {Json}

  FailsIn-issues :
      {steps : List FlowStep} {e : FlowException} {evs : List (Event Json)}
      → FailsIn H steps e evs
      → e.issues ≢ []
  FailsIn-issues (request_fails path m before after i p c e) z = cc
  FailsIn-issues (response_fails path text ws incoming w i r p b e) z = b.2 cc
  FailsIn-issues (subflow_fails path inner i s f) z = append-one-ne-nil _ _ z
  FailsIn-issues (block_fails path repeat inner i f) z = append-one-ne-nil _ _ z

  All-NamesWhy :
      (flows : List (String × String)) (before evs : List (Event Json))
      → Traced H flows before evs
      → All NamesWhy evs
  All-NamesWhy flows before [] h = tt
  All-NamesWhy flows before (failure ev ∷ evs) (t, h) =
      (FailsIn-issues t.2.2, All-NamesWhy flows (before ++ failure ev ∷ []) evs h)
  All-NamesWhy flows before (simple ev ∷ evs) h =
      (tt, All-NamesWhy flows (before ++ simple ev ∷ []) evs h.1)
  All-NamesWhy flows before (success ev ∷ evs) h =
      (tt, All-NamesWhy flows (before ++ success ev ∷ []) evs h.1)
  All-NamesWhy flows before (request ev ∷ evs) h =
      (tt, All-NamesWhy flows (before ++ request ev ∷ []) evs h.1)
  All-NamesWhy flows before (response ev ∷ evs) h =
      (tt, All-NamesWhy flows (before ++ response ev ∷ []) evs h.1)

  -- From a state with no events: every failure that a run reports names at least one issue, whatever
  -- the flows do and whether the run returns or throws.
  pub run_all-NamesWhy :
      (depth : ℕ) (flows : List (String × String)) (w : World Json)
      → w.events ≡ []
      → Post
          (λ _ v. All NamesWhy v.events)
          (λ _ v. All NamesWhy v.events)
          (λ _. Unit {0})
          (run_all H depth flows w).0
          (run_all H depth flows w).1
  run_all-NamesWhy depth flows w e =
      Post-weaken {W = World Json} (λ _ v. Traced H flows [] v.events) _
        (λ _ v. Traced H flows [] v.events) _ (λ _. Unit {0}) _ _ _
        (λ a h. All-NamesWhy flows [] _ h) (λ x h. All-NamesWhy flows [] _ h) (λ x n. tt)
        (run_all-Traced H depth flows w e)
