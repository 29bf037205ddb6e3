-- ===== src/Scheduler/Printed.antt =====
-- What is printed of the failures of a run (src/scheduler.hpp, src/reporting/report_engine.hpp,
-- src/reporting/default_report_renderer.cpp).
mod Tests
use cliot.Prelude.{
  ℕ, ◌≤◌, ◌≡◌, ◌≢◌, refl, String, true, List, [], ◌∷◌, ◌++◌, All, In, here, there, In-cons, inl,
  inr, subst, sym, In-append_left, In-append_right, Within,
}
use cliot.Exec.Triple.{Post, Post-weaken}
use cliot.Host.{Host}
use cliot.World.{World}
use cliot.Reporting.Events.{Issue, FailureEvent, Event, simple, success, failure, request, response}
use cliot.Reporting.Renderer.{FmtLib, FmtLaws, render, render_failure, print_events}
use cliot.Reporting.Renderer.Content.{render_failure-Within}
use cliot.Scheduler.{run_all}
use cliot.Scheduler.Blame.{NamesWhy, run_all-NamesWhy}

module _ {Json : Type 0} where
  -- A failure is printed: one text has the flow's name, and the path and the message of an issue.
  abbrev pub ShownIn : List String → Event Json → Type 0
  ShownIn texts (failure ev) =
      (issue : Issue) × In issue ev.issues
      × (text : String) × In text texts
      × Within ev.flow_name text
      × Within issue.path text
      × Within issue.message text
  ShownIn texts ev = Unit {0}

module _ (F : FmtLib) (L : FmtLaws F) (H : Host) (verbose : ℕ) (loud : 1 ≤ verbose) where
  open H use {json}
  open json use {Json}

  In-print_events :
      (text : String) (ev : Event Json) (evs : List (Event Json))
      → In ev evs
      → In text (render F json verbose ev)
      → In text (print_events F json true verbose evs)
  unfolding print_events
  In-print_events text ev [] m r = elim m [ ]
  In-print_events text ev (e ∷ rest) m r = elim (In-cons m) [
    | inl same ↦ In-append_left _ (subst (λ v. In text (render F json verbose v)) same r)
    | inr later ↦ In-append_right (render F json verbose e) (In-print_events text ev rest later r)
  ]

  some_issue : (issues : List Issue) → issues ≢ [] → (issue : Issue) × In issue issues
  some_issue [] h = absurd (h refl)
  some_issue (issue ∷ rest) h = (issue, here)

  each_shown :
      (evs : List (Event Json)) (ev : Event Json)
      → In ev evs
      → NamesWhy ev
      → ShownIn (print_events F json true verbose evs) ev
  unfolding render
  each_shown evs (simple ev) m h = tt
  each_shown evs (success ev) m h = tt
  each_shown evs (request ev) m h = tt
  each_shown evs (response ev) m h = tt
  each_shown evs (failure ev) m h =
      let (issue, i) = some_issue ev.issues h in
      let (text, t, name, path, live, where_, why, detail) =
        render_failure-Within F L json verbose ev issue loud i in
      (issue, i, text, In-print_events text (failure ev) evs m t, name, where_, why)

  All-ShownIn :
      (evs rest : List (Event Json))
      → ((ev : Event Json) → In ev rest → In ev evs)
      → All NamesWhy rest
      → All (ShownIn (print_events F json true verbose evs)) rest
  All-ShownIn evs [] inside h = tt
  All-ShownIn evs (ev ∷ rest) inside h =
      (each_shown evs ev (inside ev here) h.0, All-ShownIn evs rest (λ e m. inside e (there m)) h.1)

  -- At verbosity 1 or more, from a state with no events: for every failure that a run reports, whether
  -- it returns or throws, a text is printed that has the flow's name and the path and the message of
  -- one of its issues.
  pub run_all-ShownIn :
      (depth : ℕ) (flows : List (String × String)) (w : World Json)
      → w.events ≡ []
      → Post
          (λ _ v. All (ShownIn (print_events F json true verbose v.events)) v.events)
          (λ _ v. All (ShownIn (print_events F json true verbose v.events)) v.events)
          (λ _. Unit {0})
          (run_all H depth flows w).0
          (run_all H depth flows w).1
  run_all-ShownIn depth flows w e =
      Post-weaken {W = World Json} (λ _ v. All NamesWhy v.events) _ (λ _ v. All NamesWhy v.events) _
        (λ _. Unit {0}) _ _ _ (λ a h. All-ShownIn _ _ (λ ev m. m) h)
        (λ x h. All-ShownIn _ _ (λ ev m. m) h) (λ x n. tt) (run_all-NamesWhy H depth flows w e)
