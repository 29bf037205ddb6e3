-- ===== src/Scheduler/Links.antt =====
-- The connections over a whole run (src/scheduler.hpp): all sessions come back to the pool, and flows
-- that do not nest too deep never wait for one.
use cliot.Prelude.{ℕ, ◌≤◌, ◌≡◌, ◌≢◌, refl, true, false, List, [], ◌∷◌, arith, length, String}
use cliot.Exec.{Exec, Exn, flow, inja, json as json_exn, other, waits, halts}
use cliot.Exec.Triple.{
  Post, Post-weaken, Triple, Triple-pure, Triple-throw, Triple-bind, Triple-catch,
}
use cliot.Host.{Host, silence}
use cliot.Util.AsyncQueue.{AsyncQueue}
use cliot.World.{World}
use cliot.Runner.Flows.Runs.{run_top-Keeps}
use cliot.Scheduler.{on_failure, run_one, run_all}
use cliot.Web.Connections.{make_pool, make_pool_lem}
use cliot.Web.Connections.Held.{PoolIs, copies}

module _ (H : Host) (cap : ℕ) (Bad : Type 0) (unconnected : (ws : ℕ) → H.connects ws ≡ false → Bad)
    (unanswered : (clock ws : ℕ) → H.receive clock ws ≡ silence → Bad) (total : ℕ → ℕ) (n depth : ℕ)
    (enough : n ≤ depth → Bad) where
  open H use {json}
  open json use {Json}

  abbrev Holding : World Json → Type 0
  Holding w = PoolIs cap total n [] w.pool

  abbrev Keeps {ℓ} : {A : Type ℓ} → Exec (World Json) A → Type ℓ
  Keeps m = Triple Holding m (λ _. Holding) (λ _. Holding) (λ h. h ≡ waits → Bad)

  Keeps-on_failure : (name : String) (e : Exn) → Keeps (on_failure H name e)
  unfolding on_failure
  Keeps-on_failure name (flow e) = record { at = λ w h. h }
  Keeps-on_failure name (inja m) = Triple-throw _
  Keeps-on_failure name (json_exn m) = Triple-throw _
  Keeps-on_failure name (other m) = Triple-throw _

  run_one-Keeps : (name dir : String) → Keeps (run_one H depth name dir)
  unfolding run_one
  run_one-Keeps name dir =
      Triple-catch _ _
        (Triple-bind _ _
          (run_top-Keeps H cap Bad unconnected unanswered depth name dir total n enough)
          (λ _. record { at = λ w h. h }))
        (λ e. Keeps-on_failure name e)

  pub run_all-Keeps : (flows : List (String × String)) → Keeps (run_all H depth flows)
  unfolding run_all
  run_all-Keeps [] = Triple-pure 0
  run_all-Keeps ((name, dir) ∷ rest) =
      Triple-bind _ _ (run_one-Keeps name dir) (λ _. run_all-Keeps rest)

-- The sessions of a new pool.
abbrev pub four : List ℕ
four = 0 ∷ 1 ∷ 2 ∷ 3 ∷ []

pub make_pool-PoolIs : PoolIs 4 (λ a. copies a four) 4 [] make_pool
make_pool-PoolIs = rw make_pool_lem (record {
  running = refl;
  sized = refl;
  undeleted = refl;
  fits = omega arith;
  counted = λ a. omega arith;
  all = omega arith;
})

-- The pool is not stopped and holds the four sessions of a new pool, each once.
abbrev pub IsFull : AsyncQueue ℕ → Type 0
IsFull p =
    (p.stop_requested ≡ false)
    × (length p.q ≡ 4)
    × ((a : ℕ) → copies a p.q ≡ copies a (0 ∷ 1 ∷ 2 ∷ 3 ∷ []))

IsFull-of_PoolIs : (p : AsyncQueue ℕ) → PoolIs 4 (λ a. copies a four) 4 [] p → IsFull p
IsFull-of_PoolIs p h = (h.running, omega (arith, h.all), λ a. omega (arith, h.counted a))

module _ (H : Host) (depth : ℕ) (flows : List (String × String)) where
  open H use {json}
  open json use {Json}

  -- From a new pool, whatever the flows, their steps and the network do: when the run has returned or
  -- thrown, all four sessions are in the pool again.
  pub run_all-IsFull :
      (w : World Json)
      → w.pool ≡ make_pool
      → Post
          (λ _ v. IsFull v.pool)
          (λ _ v. IsFull v.pool)
          (λ _. Unit {0})
          (run_all H depth flows w).0
          (run_all H depth flows w).1
  run_all-IsFull w e =
      Post-weaken (λ _ v. PoolIs 4 (λ a. copies a four) 4 [] v.pool) (λ _ v. IsFull v.pool)
        (λ _ v. PoolIs 4 (λ a. copies a four) 4 [] v.pool) (λ _ v. IsFull v.pool)
        (λ h. h ≡ waits → Unit {0}) (λ _. Unit {0}) _ _ (λ a h. IsFull-of_PoolIs _ h)
        (λ x h. IsFull-of_PoolIs _ h) (λ x h. tt)
        ((run_all-Keeps H 4 (Unit {0}) (λ ws u. tt) (λ c ws u. tt) (λ a. copies a four) 4 depth
            (λ _. tt) flows).at
          w (rw e make_pool-PoolIs))

  -- From a new pool: if every session connects and the server always answers, then a run whose bound
  -- on the nesting of flows is at most three (the top-level flow counts as one) never waits for a
  -- connection.
  pub run_all-ne-waits :
      (w : World Json)
      → depth ≤ 3
      → ((ws : ℕ) → H.connects ws ≡ true)
      → ((clock ws : ℕ) → H.receive clock ws ≢ silence)
      → w.pool ≡ make_pool
      → (run_all H depth flows w).0 ≢ halts waits
  run_all-ne-waits w shallow connected answered e r =
      let p : Post (λ _ v. PoolIs 4 (λ a. copies a four) 4 [] v.pool)
          (λ _ v. PoolIs 4 (λ a. copies a four) 4 [] v.pool) (λ h. h ≡ waits → ⊥)
          (run_all H depth flows w).0 (run_all H depth flows w).1 =
        (run_all-Keeps H 4 ⊥ (λ ws u. cc (connected ws)) (λ c ws u. answered c ws u)
            (λ a. copies a four) 4 depth (λ h. omega arith) flows).at
          w (rw e make_pool-PoolIs) in
      (rw r at p) refl
