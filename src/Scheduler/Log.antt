-- ===== src/Scheduler/Log.antt =====
-- The order in which the reports of a run may come (src/scheduler.hpp, src/runner.hpp).
use cliot.Prelude.{◌≡◌, List, [], ◌∷◌, ◌++◌, String, All}
use cliot.Reporting.Events.{Event, simple, success, failure}

module _ {Json : Type 0} where
  -- No verdict.
  abbrev pub IsQuiet : Event Json → Type 0
  IsQuiet (success ev) = ⊥
  IsQuiet (failure ev) = ⊥
  IsQuiet ev = Unit

  abbrev pub IsVerdictOf : String → Event Json → Type 0
  IsVerdictOf name (success ev) = ev.flow_name ≡ name
  IsVerdictOf name (failure ev) = ev.flow_name ≡ name
  IsVerdictOf name ev = ⊥

  abbrev pub running : String → Event Json
  running name = simple (record { label = "RUNNING"; message = name })

  -- The reports of flows that have all ended: of each its beginning, then what its steps report, then
  -- its verdict.
  pub data Log : List (String × String) → List (Event Json) → Type 0 where
    nothing : Log [] []
    judged :
        {name dir : String} {flows : List (String × String)} {events : List (Event Json)}
        (middle : List (Event Json)) (verdict : Event Json)
        → All IsQuiet middle
        → IsVerdictOf name verdict
        → Log flows events
        → Log ((name, dir) ∷ flows) (running name ∷ (middle ++ verdict ∷ events))

  -- The same up to a flow that has not ended, and that may not have begun.
  pub data Broken : List (String × String) → List (Event Json) → Type 0 where
    not_begun :
        {name dir : String} {flows : List (String × String)} → Broken ((name, dir) ∷ flows) []
    begun :
        {name dir : String} {flows : List (String × String)} (middle : List (Event Json))
        → All IsQuiet middle
        → Broken ((name, dir) ∷ flows) (running name ∷ middle)
    after :
        {name dir : String} {flows : List (String × String)} {events : List (Event Json)}
        (middle : List (Event Json)) (verdict : Event Json)
        → All IsQuiet middle
        → IsVerdictOf name verdict
        → Broken flows events
        → Broken ((name, dir) ∷ flows) (running name ∷ (middle ++ verdict ∷ events))
