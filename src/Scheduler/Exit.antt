-- ===== src/Scheduler/Exit.antt =====
-- The exit code of the program (src/main.cpp, src/scheduler.hpp).
use cliot.Prelude.{ℕ, ◌≡◌, ◌⊎◌, inl, inr, refl, sym, ap, List, [], String, All}
use cliot.Json.{Checked}
use cliot.Runner.Callbacks.Local.{NotFlow}
use cliot.Exec.Triple.{Post, Post-weaken, Triple, Triple-bind, Triple-catch}
use cliot.Host.{Host}
use cliot.World.{World}
use cliot.Crawler.{DirectoryEntry, crawl}
use cliot.Exec.{Outcome, returns, throws, halts}
use cliot.Flow.FilePath.{◌//◌}
use cliot.Crawler.Found.{IsSelected, Finds-crawl}
use cliot.Scheduler.{run, exit_code}
use cliot.Scheduler.Verdicts.{
  verdicts, names, Reported, Reported-steady, StoppedEarly, run_all-Reported,
}

module _ (H : Host) (entries : String → Checked (List DirectoryEntry)) where
  open H use {json}
  open json use {Json}

  -- The verdicts are one for each of the flows that the crawler finds in the state `before`, in order.
  abbrev pub AllJudged : String → String → World Json → World Json → Type 0
  AllJudged path filter before w =
      (flows : List (String × String)) × ((crawl H entries path filter before).0 ≡ returns flows)
      × (verdicts w.events ≡ names flows)

  -- The crawler's result, besides what is known of it.
  crawl_result :
      (path filter : String) (before : World Json) (r : Outcome (List (String × String)))
      (v : World Json)
      → (crawl H entries path filter before).0 ≡ r
      → Post
          (λ flows u. All (IsSelected entries (path // "flows") filter) flows × Reported H [] u)
          (λ e u. NotFlow e × Reported H [] u)
          (λ _. ⊥)
          r
          v
      → Post
          (λ flows u. ((crawl H entries path filter before).0 ≡ returns flows) × Reported H [] u)
          (λ _ _. Unit {0})
          (λ _. Unit {0})
          r
          v
  crawl_result path filter before (returns flows) v e p = (e, p.1)
  crawl_result path filter before (throws x) v e p = tt
  crawl_result path filter before (halts x) v e p = tt

  pub run-AllJudged :
      (depth : ℕ) (path filter : String) (before : World Json)
      → Triple
          (λ w. (w ≡ before) × Reported H [] w)
          (run H entries depth path filter)
          (λ r w. (r ≡ 0) × AllJudged path filter before w)
          (λ _ _. Unit {0})
          (λ _. Unit {0})
  unfolding run
  run-AllJudged depth path filter before =
      Triple-bind
        {Q = λ flows w. ((crawl H entries path filter before).0 ≡ returns flows) × Reported H [] w}
        _ _
        (record {
          at = λ w h.
              crawl_result path filter before (crawl H entries path filter w).0 _
                (ap (λ v. (crawl H entries path filter v).0) (sym h.0))
                ((Finds-crawl H entries (Reported H []) (Reported-steady H []).frame path filter).at
                  w h.1);
        })
        (λ flows. record {
          at = λ w h.
              Post-weaken (λ r v. (r ≡ 0) × Reported H (names flows) v)
                (λ r v. (r ≡ 0) × AllJudged path filter before v)
                (λ e v. NotFlow e × StoppedEarly H [] flows v) (λ _ _. Unit {0}) (λ _. Unit {0})
                (λ _. Unit {0}) _ _ (λ r p. (p.0, (flows, h.0, p.1))) (λ e p. tt) (λ x n. tt)
                ((run_all-Reported H [] depth flows).at w h.1);
        })

  -- From a state with no events: unless an assertion fails, a wait has no end, or the bound on the
  -- nesting is too small, the program returns an exit code. It is 0 or 1, and with 0 the crawler has
  -- returned some flows, and the verdicts that were reported are one for each of these flows, in their
  -- order.
  pub exit_code-run :
      (depth : ℕ) (path filter : String) (w : World Json)
      → w.events ≡ []
      → Post
          (λ r v. ((r ≡ 0) × AllJudged path filter w v) ⊎ (r ≡ 1))
          (λ _ _. ⊥)
          (λ _. Unit {0})
          (exit_code H (run H entries depth path filter) w).0
          (exit_code H (run H entries depth path filter) w).1
  unfolding exit_code
  exit_code-run depth path filter w e =
      (Triple-catch {E = λ _ _. Unit {0}} _ _
          (record {
            at = λ v h.
                Post-weaken (λ r u. (r ≡ 0) × AllJudged path filter w u)
                  (λ r u. ((r ≡ 0) × AllJudged path filter w u) ⊎ (r ≡ 1)) (λ _ _. Unit {0})
                  (λ _ _. Unit {0}) (λ _. Unit {0}) (λ _. Unit {0}) _ _ (λ r p. inl p) (λ x p. tt)
                  (λ x n. tt) ((run-AllJudged depth path filter w).at v h);
          })
          (λ x. record { at = λ v h. inr refl })).at
        w (refl, ap verdicts e)
