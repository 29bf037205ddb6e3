-- ===== src/Reporting/AnyEvent.antt =====
-- AnyEvent (src/reporting/events.hpp): an event of any type with the renderer that it is kept for.
use cliot.Prelude.{ℕ, ◌≡◌, refl, ap, String, true, List, [], ◌∷◌, ◌++◌, map}
use cliot.Json.{JsonLib}
use cliot.Reporting.Events.{Event}
use cliot.Reporting.Renderer.{FmtLib, render, print_events}

-- The Model behind the pointer: the event, and the renderer by what it prints of one.
pub data AnyEvent : Type 1 where
  model : {T : Type 0} → T → (T → List String) → AnyEvent

abbrev pub any_event : {T : Type 0} → T → (T → List String) → AnyEvent
any_event ev renderer = model ev renderer

unfoldable render_any : AnyEvent → List String
render_any (model ev renderer) = renderer ev

unfoldable render_later : List AnyEvent → List String
unfolding render_any
render_later [] = []
render_later (ev ∷ rest) = render_any ev ++ render_later rest

-- Events that are kept and rendered later give what `record` prints of them at once.
render_later_lem :
    (F : FmtLib) (J : JsonLib) (verbose : ℕ) (evs : List (Event J.Json))
    → render_later (map (λ ev. any_event ev (render F J verbose)) evs)
      ≡ print_events F J true verbose evs
unfolding render_later print_events
render_later_lem F J verbose [] = refl
render_later_lem F J verbose (ev ∷ evs) =
    ap (λ texts. render F J verbose ev ++ texts) (render_later_lem F J verbose evs)
