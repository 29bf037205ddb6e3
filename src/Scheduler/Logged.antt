-- ===== src/Scheduler/Logged.antt =====
-- The order of what a run reports (src/scheduler.hpp): each flow's reports, one flow after the other.
use cliot.Prelude.{
  ℕ, ◌≡◌, refl, sym, subst, ◌∙◌, inl, inr, List, [], ◌∷◌, ◌++◌, String, append_assoc, append-nil,
}
use cliot.Reporting.Events.{Event}
use cliot.Exec.{Exn}
use cliot.Exec.Triple.{Post, Post-weaken, Triple, Triple-weaken, Triple-bind}
use cliot.Host.{Host}
use cliot.World.{World}
use cliot.Scheduler.{run_all}
use cliot.Scheduler.Log.{running, Log, nothing, judged, Broken, not_begun, begun, after}
use cliot.Scheduler.Judged.{Ends, Judged, run_one-Judged}

module _ (H : Host) where
  open H use {json}
  open json use {Json}

  abbrev Behind : (List (Event Json) → Type 0) → List (Event Json) → World Json → Type 0
  Behind P before w = (events : List (Event Json)) × P events × (w.events ≡ before ++ events)

  stopped :
      (before : List (Event Json)) (name dir : String) (flows : List (String × String)) (x : Exn)
      (w : World Json)
      → Ends H before name x w
      → Behind (Broken ((name, dir) ∷ flows)) before w
  stopped before name dir flows x w (inl (middle, h, e)) = (_, begun middle h, e)
  stopped before name dir flows x w (inr (n, e)) = ([], not_begun, e ∙ sym (append-nil before))

  behind_one :
      (before middle : List (Event Json)) (name : String) (verdict : Event Json)
      (events now rest : List (Event Json))
      → events ≡ before ++ running name ∷ (middle ++ verdict ∷ [])
      → now ≡ events ++ rest
      → now ≡ before ++ running name ∷ (middle ++ verdict ∷ rest)
  behind_one before middle name verdict events now rest e n = simp (n, e, append_assoc)

  Log-one :
      (before : List (Event Json)) (name dir : String) (flows : List (String × String))
      (w v : World Json)
      → Judged H before name w
      → Behind (Log flows) w.events v
      → Behind (Log ((name, dir) ∷ flows)) before v
  Log-one before name dir flows w v (middle, verdict, q, i, e) (events, l, n) = (
    _,
    judged middle verdict q i l,
    behind_one before middle name verdict w.events v.events events e n,
  )

  Broken-one :
      (before : List (Event Json)) (name dir : String) (flows : List (String × String))
      (w v : World Json)
      → Judged H before name w
      → Behind (Broken flows) w.events v
      → Behind (Broken ((name, dir) ∷ flows)) before v
  Broken-one before name dir flows w v (middle, verdict, q, i, e) (events, l, n) = (
    _,
    after middle verdict q i l,
    behind_one before middle name verdict w.events v.events events e n,
  )

  run_all-Logged :
      (before : List (Event Json)) (depth : ℕ) (flows : List (String × String))
      → Triple
          (λ w. w.events ≡ before)
          (run_all H depth flows)
          (λ _. Behind (Log flows) before)
          (λ _. Behind (Broken flows) before)
          (λ _. Unit {0})
  unfolding run_all
  run_all-Logged before depth [] = record { at = λ w h. ([], nothing, h ∙ sym (append-nil before)) }
  run_all-Logged before depth ((name, dir) ∷ flows) =
      Triple-bind {Q = λ _. Judged H before name} _ _
        (Triple-weaken _ (λ a v h. h) (λ x v h. stopped before name dir flows x v h.1) (λ x h. h)
          (run_one-Judged H before depth name dir))
        (λ _. record {
          at = λ w j.
              Post-weaken (λ _. Behind (Log flows) w.events) _ (λ _. Behind (Broken flows) w.events)
                _ (λ _. Unit {0}) (λ _. Unit {0}) _ _
                (λ a h. Log-one before name dir flows w (run_all H depth flows w).1 j h)
                (λ x h. Broken-one before name dir flows w (run_all H depth flows w).1 j h)
                (λ n u. u) ((run_all-Logged w.events depth flows).at w refl);
        })

  -- From a state with no events, the reports of a run come flow by flow in the order of the flows: of
  -- each flow "RUNNING" with its name, then reports that are no verdicts, then the one verdict, which
  -- has the flow's name. When the run throws, the last of the flows that were run has no verdict, and
  -- perhaps no report at all.
  pub run_all-Log :
      (depth : ℕ) (flows : List (String × String)) (w : World Json)
      → w.events ≡ []
      → Post
          (λ _ v. Log flows v.events)
          (λ _ v. Broken flows v.events)
          (λ _. Unit {0})
          (run_all H depth flows w).0
          (run_all H depth flows w).1
  run_all-Log depth flows w e =
      Post-weaken (λ _. Behind (Log flows) []) _ (λ _. Behind (Broken flows) []) _ (λ _. Unit {0})
        (λ _. Unit {0}) _ _ (λ a (evs, l, n). subst (Log flows) (sym n) l)
        (λ x (evs, l, n). subst (Broken flows) (sym n) l) (λ n u. u)
        ((run_all-Logged [] depth flows).at w e)
