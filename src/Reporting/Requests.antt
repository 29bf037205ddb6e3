-- ===== src/Reporting/Requests.antt =====
-- The reports of requests (src/reporting/events.hpp), beside the texts that are given to the sessions to
-- write.
use cliot.Prelude.{ℕ, ◌≡◌, refl, ap, List, [], ◌∷◌, ◌++◌, String}
use cliot.Json.{JsonLib, value}
use cliot.Reporting.Events.{Event, simple, success, failure, request, response}

-- The requests that are reported, by the data that they show.
abbrev pub reported : {Json : Type 0} → List (Event Json) → List String
reported [] = []
reported (request ev ∷ evs) = ev.data_text ∷ reported evs
reported (simple ev ∷ evs) = reported evs
reported (success ev ∷ evs) = reported evs
reported (failure ev ∷ evs) = reported evs
reported (response ev ∷ evs) = reported evs

pub reported-append :
    {Json : Type 0} (xs ys : List (Event Json)) → reported (xs ++ ys) ≡ reported xs ++ reported ys
reported-append [] ys = refl
reported-append (request ev ∷ xs) ys = ap (◌∷◌ ev.data_text) (reported-append xs ys)
reported-append (simple ev ∷ xs) ys = reported-append xs ys
reported-append (success ev ∷ xs) ys = reported-append xs ys
reported-append (failure ev ∷ xs) ys = reported-append xs ys
reported-append (response ev ∷ xs) ys = reported-append xs ys

module _ (J : JsonLib) where
  -- A report shows the JSON value of the text.
  abbrev pub Shows : String → String → Type 0
  Shows data_text text = (j : J.Json) × (J.parse text ≡ value j) × (data_text ≡ J.dump j)

  -- One report for each text, in the same order.
  abbrev pub ShowAll : List String → List (ℕ × String) → Type 0
  ShowAll [] [] = Unit
  ShowAll (data_text ∷ reports) ((ws, text) ∷ writes) =
      Shows data_text text × ShowAll reports writes
  ShowAll _ _ = ⊥

  pub ShowAll-append :
      (reports : List String) (writes : List (ℕ × String)) (data_text : String) (ws : ℕ)
      (text : String)
      → ShowAll reports writes
      → Shows data_text text
      → ShowAll (reports ++ data_text ∷ []) (writes ++ (ws, text) ∷ [])
  ShowAll-append [] [] d ws text h s = (s, tt)
  ShowAll-append [] (x ∷ writes) d ws text h s = absurd h
  ShowAll-append (r ∷ reports) [] d ws text h s = absurd h
  ShowAll-append (r ∷ reports) (x ∷ writes) d ws text h s =
      (h.0, ShowAll-append reports writes d ws text h.1 s)
