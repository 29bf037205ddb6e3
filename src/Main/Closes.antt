-- ===== src/Main/Closes.antt =====
-- How the program ends (src/main.cpp).
use cliot.Prelude.{
  ℕ, String, ◌≡◌, ◌⊎◌, inl, inr, refl, ap, ◌∙◌, ◌++◌, true, false, List, [], ◌∷◌, arith,
}
use cliot.Json.{Checked, value}
use cliot.Exec.{Exec, Exn, Halt, catch, ◌>>=◌}
use cliot.Exec.Triple.{
  Post, Triple, Triple-bind, Triple-catch, Triple-pure, Triple-and, Triple-weaken, Triple-throw,
}
use cliot.Host.{Host}
use cliot.World.{World, Frame}
use cliot.Util.AsyncQueue.{AsyncQueue, stop}
use cliot.Util.AsyncQueue.History.{drain-append}
use cliot.Crawler.{DirectoryEntry}
use cliot.Crawler.Found.{Finds-crawl}
use cliot.Web.Connections.{make_pool, close_pool}
use cliot.Web.Connections.Held.{PoolIs, copies}
use cliot.Scheduler.{run, exit_code}
use cliot.Scheduler.Exit.{AllJudged, run-AllJudged}
use cliot.Scheduler.Links.{four, make_pool-PoolIs, run_all-Keeps}
use cliot.Scheduler.Verdicts.{Reported}
use cliot.Main.{Options, parse_options, closing, serve, with_options, main}

-- The pool is stopped and empty, and the deleter was called on each of the four sessions once.
pub record Closed (p : AsyncQueue ℕ) : Type 0 where
  pub stopped : p.stop_requested ≡ true
  pub emptied : p.q ≡ []
  pub each_once : (a : ℕ) → copies a p.deleted ≡ copies a (0 ∷ 1 ∷ 2 ∷ 3 ∷ [])

abbrev Full : AsyncQueue ℕ → Type 0
Full p = PoolIs 4 (λ a. copies a four) 4 [] p

Closed-stop : (p : AsyncQueue ℕ) → Full p → Closed (stop p)
unfolding stop
Closed-stop p h = record {
  stopped = refl;
  emptied = refl;
  each_once = λ a.
      omega
        (arith, ap (copies a) (drain-append p.q p.deleted ∙ ap (◌++ p.q) h.undeleted), h.counted a);
}

module _ (H : Host) (entries : String → Checked (List DirectoryEntry)) (depth : ℕ) where
  open H use {json}
  open json use {Json}

  stopping :
      {P Q : World Json → Type 0}
      → ((v : World Json) → P v → Q (record v { pool = stop v.pool }))
      → {E : Exn → World Json → Type 0} → {N : Halt → Type 0} → Triple P (close_pool H) (λ _. Q) E N
  unfolding close_pool
  stopping f = record { at = λ v h. f v h }

  -- The pool is closed on both ways out.
  closing-Closed :
      (m : Exec (World Json) ℕ) (path filter : String) (before : World Json)
      (P : World Json → Type 0)
      → Triple P m
          (λ r v. ((r ≡ 0) × AllJudged H entries path filter before v) × Full v.pool)
          (λ _ v. Unit {0} × Full v.pool)
          (λ _. Unit {0})
      → Triple P
          (closing H entries depth m)
          (λ r v. ((r ≡ 0) × AllJudged H entries path filter before v) × Closed v.pool)
          (λ _ v. Closed v.pool)
          (λ _. Unit {0})
  unfolding closing
  closing-Closed m path filter before P t =
      Triple-bind {Q = λ r v. ((r ≡ 0) × AllJudged H entries path filter before v) × Full v.pool} _
        _
        (Triple-catch {E = λ _ v. Unit {0} × Full v.pool} _ _ t (λ e.
          Triple-bind {Q = λ _ v. Closed v.pool} _ _ (stopping (λ v h. Closed-stop v.pool h.1))
            (λ _. Triple-throw e)))
        (λ r.
          Triple-bind
            {Q = λ _ v. ((r ≡ 0) × AllJudged H entries path filter before v) × Closed v.pool} _ _
            (stopping (λ v h. (h.0, Closed-stop v.pool h.1))) (λ _. Triple-pure r))

  Full-frame : Frame {Json = Json} (λ v. Full v.pool)
  Full-frame = record {
    on_store = λ w s h. h;
    on_clock = λ w n h. h;
    on_simple = λ w ev h. h;
    on_response = λ w ev h. h;
  }

  run-Full :
      (path filter : String)
      → Triple
          (λ v. Full v.pool)
          (run H entries depth path filter)
          (λ _ v. Full v.pool)
          (λ _ v. Full v.pool)
          (λ _. Unit {0})
  unfolding run
  run-Full path filter =
      Triple-bind {Q = λ _ v. Full v.pool} _ _
        (Triple-weaken _ (λ a v h. h.1) (λ e v h. h.1) (λ x n. tt)
          (Finds-crawl H entries (λ v. Full v.pool) Full-frame path filter))
        (λ flows.
          Triple-weaken _ (λ a v h. h) (λ e v h. h) (λ x n. tt)
            (run_all-Keeps H 4 (Unit {0}) (λ ws u. tt) (λ c ws u. tt) (λ a. copies a four) 4 depth
              (λ _. tt) flows))

  -- The state in which the scheduler starts.
  abbrev pub serving : World Json → World Json
  serving w = record w { events = []; pool = make_pool }

  serve-Closed :
      (path filter : String) (w : World Json)
      → Triple
          (λ v. v ≡ w)
          (serve H entries depth path filter)
          (λ r v. ((r ≡ 0) × AllJudged H entries path filter (serving w) v) × Closed v.pool)
          (λ _ v. Closed v.pool)
          (λ _. Unit {0})
  unfolding serve
  serve-Closed path filter w =
      Triple-bind {Q = λ _ v. ((v ≡ serving w) × Reported H [] v) × Full v.pool} _ _
        (record { at = λ v h. ((ap serving h, refl), make_pool-PoolIs) })
        (λ _. closing-Closed _ path filter (serving w) _ (
          Triple-and _ (run-AllJudged H entries depth path filter (serving w))
            (run-Full path filter)))

  main_lem :
      (result : Options) (path host filter : String) (port verbose : ℕ) (w : World Json)
      → result.help ≡ false
      → result.path ≡ value path
      → result.host ≡ value host
      → result.port ≡ value port
      → result.filter ≡ value filter
      → result.verbose ≡ value verbose
      → main H entries depth (value result) w ≡ exit_code H (serve H entries depth path filter) w
  unfolding main parse_options with_options exit_code catch ◌>>=◌
  main_lem result path host filter port verbose w a b c d e f = rw (a, b, c, d, e, f) refl

  -- With options that have a value each and no `help`: unless an assertion fails, a wait has no end,
  -- or the bound on the nesting is too small, the program ends with the exit code 0 or 1; in both
  -- cases its connection pool is stopped and each of the four sessions was closed once; and with 0
  -- there is one verdict for each of the flows that the crawler has found, in their order.
  pub main-Closed :
      (result : Options) (path host filter : String) (port verbose : ℕ) (w : World Json)
      → result.help ≡ false
      → result.path ≡ value path
      → result.host ≡ value host
      → result.port ≡ value port
      → result.filter ≡ value filter
      → result.verbose ≡ value verbose
      → Post
          (λ r v.
            (((r ≡ 0) × AllJudged H entries path filter (serving w) v) ⊎ (r ≡ 1)) × Closed v.pool)
          (λ _ _. ⊥)
          (λ _. Unit {0})
          (main H entries depth (value result) w).0
          (main H entries depth (value result) w).1
  unfolding exit_code
  main-Closed result path host filter port verbose w a b c d e f =
      rw (main_lem result path host filter port verbose w a b c d e f) (
        (Triple-catch {E = λ _ v. Closed v.pool} _ _
            (Triple-weaken _ (λ r v h. (inl h.0, h.1)) (λ x v h. h) (λ x n. tt)
              (serve-Closed path filter w))
            (λ x. record { at = λ v h. (inr refl, h) })).at
          w refl)
