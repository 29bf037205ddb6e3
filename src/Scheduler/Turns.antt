-- ===== src/Scheduler/Turns.antt =====
-- The turns of the sessions over a whole run (src/scheduler.hpp, src/runner.hpp).
mod Tests
use cliot.Prelude.{ℕ, ◌≡◌, refl, sym, ◌∙◌, ap, String, List, [], ◌∷◌, ◌++◌, All, arith, append-nil}
use cliot.Json.{value}
use cliot.Exec.{Exec, Exn, flow, inja, json as json_exn, other}
use cliot.Exec.Triple.{
  Post, Triple, Triple-pure, Triple-throw, Triple-bind, Triple-catch, Triple-weaken,
}
use cliot.Host.{Host}
use cliot.World.{World}
use cliot.Flow.Descriptors.{Steps}
use cliot.Runner.Flows.{load_from}
use cliot.Runner.Flows.Framed.{script_at}
use cliot.Runner.Flows.Turns.{rotate, served, sessions, IsPlain, InTurn}
use cliot.Runner.Flows.Turns.Flows.{Turn, run_top-Turn}
use cliot.Web.Connections.{make_pool, make_pool_lem}
use cliot.Scheduler.{on_failure, run_one, run_all}

abbrev pub four : List ℕ
four = 0 ∷ 1 ∷ 2 ∷ 3 ∷ []

module _ (H : Host) where
  open H use {json}
  open json use {Json}

  -- No script has subflows or blocks.
  abbrev pub IsPlainHost : Type 0
  IsPlainHost =
      (path : String) (steps : Steps)
      → script_at H path ≡ value steps
      → All IsPlain (load_from steps path)

  -- After some turns of the four sessions, the texts have gone to those served, in order, and the pool
  -- holds them all in the order of their next turns.
  abbrev pub TookTurns : World Json → Type 0
  TookTurns w = (n : ℕ) × (sessions w.writes ≡ served n four) × (w.pool.q ≡ rotate n four)

  module _ (plain : IsPlainHost) (depth : ℕ) where
    abbrev Turns {ℓ} : {A : Type ℓ} → Exec (World Json) A → Type ℓ
    Turns m = Triple (Turn H four []) m (λ _. Turn H four []) (λ _. Turn H four []) (λ _. Unit)

    on_failure-Turn : (name : String) (e : Exn) → Turns (on_failure H name e)
    unfolding on_failure
    on_failure-Turn name (flow e) = record { at = λ w h. h }
    on_failure-Turn name (inja m) = Triple-throw _
    on_failure-Turn name (json_exn m) = Triple-throw _
    on_failure-Turn name (other m) = Triple-throw _

    run_all-Turn : (flows : List (String × String)) → Turns (run_all H depth flows)
    unfolding run_all run_one
    run_all-Turn [] = Triple-pure 0
    run_all-Turn ((name, dir) ∷ rest) =
        Triple-bind _ _
          (Triple-catch _ _
            (Triple-bind _ _ (run_top-Turn H four depth name dir (plain dir))
              (λ _. record { at = λ w h. h }))
            (λ e. on_failure-Turn name e))
          (λ _. run_all-Turn rest)

    -- Round robin: if no script has subflows or blocks, then in a run of all flows from a new pool the
    -- requests go to the four sessions in turn, across steps, failures and flows; and when the run has
    -- returned or thrown, the sessions stand in the pool in the order of their next turns.
    pub run_all-TookTurns :
        (flows : List (String × String)) (w : World Json)
        → w.pool ≡ make_pool
        → w.writes ≡ []
        → Post
            (λ _ v. TookTurns v)
            (λ _ v. TookTurns v)
            (λ _. Unit {0})
            (run_all H depth flows w).0
            (run_all H depth flows w).1
    run_all-TookTurns flows w p s =
        (Triple-weaken _ (λ a v h. told v h) (λ e v h. told v h) (λ x n. tt)
            (run_all-Turn flows)).at
          w (rw (p, s) new_pool)
      where
        told : (v : World Json) → Turn H four [] v → TookTurns v
        told v h = (h.turns, h.writes, sym (append-nil v.pool.q) ∙ h.order)

        new_pool : InTurn four [] make_pool []
        new_pool =
            rw make_pool_lem (record {
              running = refl;
              roomy = omega arith;
              turns = 0;
              order = refl;
              writes = refl;
            })
