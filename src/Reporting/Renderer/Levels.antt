-- ===== src/Reporting/Renderer/Levels.antt =====
-- Which events are printed at which verbosity (src/reporting/default_report_renderer.cpp).
use cliot.Prelude.{
  ℕ, ◌≡◌, refl, true, false, List, [], ◌∷◌, leb, arith, Bool-cases, inl, inr, if◌then◌else◌,
}
use cliot.Json.{JsonLib}
use cliot.Reporting.Events.{Issue, FailureEvent, Event, simple, success, failure, request, response}
use cliot.Reporting.Renderer.{
  FmtLib, issue_text, issue_texts, failure_message, render, print_events,
}

module _ {Json : Type 0} where
  -- The verbosity from which on an event is printed.
  abbrev pub level : Event Json → ℕ
  level (simple ev) = 1
  level (success ev) = 1
  level (failure ev) = 1
  level (request ev) = 2
  level (response ev) = 2

  abbrev pub shown : ℕ → List (Event Json) → List (Event Json)
  shown verbose [] = []
  shown verbose (ev ∷ rest) =
      let later = shown verbose rest in if leb (level ev) verbose then ev ∷ later else later

module _ (F : FmtLib) (J : JsonLib) where
  open J use {Json}

  render-quiet :
      (verbose : ℕ) (ev : Event Json) → leb (level ev) verbose ≡ false → render F J verbose ev ≡ []
  unfolding render
  render-quiet verbose (simple ev) h = ground arith
  render-quiet verbose (success ev) h = ground arith
  render-quiet verbose (failure ev) h = ground arith
  render-quiet verbose (request ev) h = ground arith
  render-quiet verbose (response ev) h = ground arith

  issue_texts-full :
      (verbose : ℕ) (issues : List Issue)
      → leb 1 verbose ≡ true
      → issue_texts F J verbose issues ≡ issue_texts F J 2 issues
  unfolding issue_texts issue_text
  issue_texts-full verbose [] h = refl
  issue_texts-full verbose (issue ∷ rest) h = ground (arith, issue_texts-full verbose rest h)

  failure_message-full :
      (verbose : ℕ) (ev : FailureEvent)
      → leb 1 verbose ≡ true
      → failure_message F J verbose ev ≡ failure_message F J 2 ev
  unfolding failure_message
  failure_message-full verbose ev h = rw (issue_texts-full verbose ev.issues h) refl

  render-full :
      (verbose : ℕ) (ev : Event Json)
      → leb (level ev) verbose ≡ true
      → render F J verbose ev ≡ render F J 2 ev
  unfolding render
  render-full verbose (simple ev) h = ground arith
  render-full verbose (success ev) h = ground arith
  render-full verbose (failure ev) h = ground (arith, failure_message-full verbose ev h)
  render-full verbose (request ev) h = ground arith
  render-full verbose (response ev) h = ground arith

  -- What a run prints at any verbosity is what the full verbosity 2 prints of the events whose level it
  -- reaches: nothing at 0, all but requests and responses at 1, and all from 2 on.
  pub print_events-shown :
      (verbose : ℕ) (evs : List (Event Json))
      → print_events F J true verbose evs ≡ print_events F J true 2 (shown verbose evs)
  unfolding print_events
  print_events-shown verbose [] = refl
  print_events-shown verbose (ev ∷ rest) = elim (Bool-cases (leb (level ev) verbose)) [
    | inl h ↦ rw (h, render-full verbose ev h, print_events-shown verbose rest) refl
    | inr h ↦ rw (h, render-quiet verbose ev h) (print_events-shown verbose rest)
  ]
