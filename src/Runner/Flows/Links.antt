-- ===== src/Runner/Flows/Links.antt =====
-- What the parts of a flow's run do to the connections (src/runner.hpp, src/flow/step): a step gives
-- back the sessions that it takes, and a throwing one also the link that is held around it.
use cliot.Prelude.{
  ℕ, suc, ◌≤◌, ◌≡◌, Bool, true, false, List, [], ◌∷◌, Option, none, some, arith, length, String,
}
use cliot.Exec.{Exec, Exn, Halt, waits, flow, inja, json as json_exn, other}
use cliot.Exec.Triple.{
  Post-weaken, Triple, Triple-pure, Triple-throw, Triple-if, Triple-checked, Triple-bind,
  Triple-catch,
}
use cliot.Host.{Host, silence}
use cliot.Util.AsyncQueue.{AsyncQueue}
use cliot.World.{World}
use cliot.Validation.{Validator}
use cliot.Flow.FilePath.{◌//◌}
use cliot.Runner.Steps
use cliot.Runner.Steps.{perform, perform_body, validate_response}
use cliot.Runner.Steps.Local.{Stays-validate_response}
use cliot.Runner.Flows.{load_steps, on_nested, unwinding, respond, env_json, asserts}
use cliot.Web.Connections.{release}
use cliot.Web.Connections.Held
use cliot.Web.Connections.Held.{PoolIs, held_by, copies}

module _ (H : Host) (cap : ℕ) (Bad : Type 0) (unconnected : (ws : ℕ) → H.connects ws ≡ false → Bad)
    (unanswered : (clock ws : ℕ) → H.receive clock ws ≡ silence → Bad) where
  open H use {json}
  open json use {Json}

  abbrev pub OnlyIfBad : Halt → Type 0
  OnlyIfBad h = h ≡ waits → Bad

  abbrev pub Holding : (ℕ → ℕ) → ℕ → List ℕ → World Json → Type 0
  Holding total n held w = PoolIs cap total n held w.pool

  abbrev pub Keeps {ℓ} : {A : Type ℓ} → (ℕ → ℕ) → ℕ → List ℕ → Exec (World Json) A → Type ℓ
  Keeps total n held m =
      Triple (Holding total n held) m (λ _. Holding total n held) (λ _. Holding total n held)
        OnlyIfBad

  pub length-held_by : (link : Option ℕ) → length (held_by link) ≤ 1
  length-held_by none = omega arith
  length-held_by (some ws) = omega arith

  PoolIs-inside :
      (total : ℕ → ℕ) (n : ℕ) (link : Option ℕ) (p : AsyncQueue ℕ)
      → PoolIs cap total n (held_by link) p
      → PoolIs cap (λ a. copies a p.q) (length p.q) [] p
  PoolIs-inside total n link p h = record {
    running = h.running;
    sized = h.sized;
    undeleted = h.undeleted;
    fits = omega (arith, h.fits, h.all);
    counted = λ a. omega arith;
    all = omega arith;
  }

  PoolIs-outside :
      (total : ℕ → ℕ) (n : ℕ) (link : Option ℕ) (p q : AsyncQueue ℕ)
      → PoolIs cap total n (held_by link) p
      → PoolIs cap (λ a. copies a p.q) (length p.q) [] q
      → PoolIs cap total n (held_by link) q
  PoolIs-outside total n link p q h k = record {
    running = k.running;
    sized = k.sized;
    undeleted = k.undeleted;
    fits = h.fits;
    counted = λ a. omega (arith, h.counted a, k.counted a);
    all = omega (arith, h.all, k.all);
  }

  -- What runs without a link of its own gives back what it finds in the pool: so does it when other
  -- links are held around it.
  pub Keeps-around {ℓ} :
      {A : Type ℓ} (m : Exec (World Json) A) (depth : ℕ)
      → ((total : ℕ → ℕ) (n : ℕ) → (n ≤ depth → Bad) → Keeps total n [] m)
      → (total : ℕ → ℕ) (n : ℕ) (link : Option ℕ) → (n ≤ suc depth → Bad)
      → Keeps total n (held_by link) m
  Keeps-around m depth keeps total n link enough = record {
    at = λ w h.
        let inner = PoolIs-inside total n link w.pool h in
        Post-weaken (λ _. Holding (λ a. copies a w.pool.q) (length w.pool.q) [])
          (λ _. Holding total n (held_by link))
          (λ _. Holding (λ a. copies a w.pool.q) (length w.pool.q) [])
          (λ _. Holding total n (held_by link)) OnlyIfBad OnlyIfBad (m w).0 (m w).1
          (λ a v. PoolIs-outside total n link w.pool _ h v)
          (λ e v. PoolIs-outside total n link w.pool _ h v) (λ x f. f)
          ((keeps (λ a. copies a w.pool.q) (length w.pool.q)
              (λ few. enough (omega (arith, h.all, length-held_by link)))).at
            w inner);
  }

  pub respond-Keeps :
      (total : ℕ → ℕ) (n : ℕ) (link : Option ℕ) (path : String) (v : Validator)
      → Keeps total n (held_by link) (respond H link path v)
  unfolding respond
  respond-Keeps total n none path v = Triple-throw _
  respond-Keeps total n (some ws) path v =
      Triple-bind _ _ (Held.read_one-Keeps H cap Bad unconnected unanswered total n (ws ∷ []) ws)
        (λ text.
          Triple-bind _ _ (Triple-checked json_exn (json.parse text) (λ a w _ h. h) (λ m w _ h. h))
            (λ incoming.
              Steps.Links.Keeps-of_Stays H cap Bad unconnected unanswered total n (ws ∷ []) _ (
                Stays-validate_response H (Holding total n (ws ∷ []))
                  (Steps.Links.Holding-frame H cap Bad unconnected unanswered total n (ws ∷ []))
                  path v incoming)))

  -- A throwing step releases the link.
  pub unwinding-Holding {ℓ} :
      {A : Type ℓ} (total : ℕ → ℕ) (n : ℕ) (link : Option ℕ) (m : Exec (World Json) A)
      (Q : A → World Json → Type 0)
      → Triple (Holding total n (held_by link)) m Q (λ _. Holding total n (held_by link)) OnlyIfBad
      → Triple
          (Holding total n (held_by link))
          (unwinding H link m)
          Q
          (λ _. Holding total n [])
          OnlyIfBad
  unfolding unwinding
  unwinding-Holding total n link m Q t = Triple-catch m _ t (λ e.
      Triple-bind _ _
        (Held.release-Holding H cap Bad unconnected unanswered total n link
          (λ _. Holding total n []))
        (λ _. Triple-throw e))

  PoolIs-swap :
      (total : ℕ → ℕ) (n a b : ℕ) (p : AsyncQueue ℕ)
      → PoolIs cap total n (a ∷ b ∷ []) p
      → PoolIs cap total n (b ∷ a ∷ []) p
  PoolIs-swap total n a b p h = record {
    running = h.running;
    sized = h.sized;
    undeleted = h.undeleted;
    fits = h.fits;
    counted = λ c. omega (arith, h.counted c);
    all = h.all;
  }

  -- The old link goes when the new one is assigned.
  pub replace-Holding :
      (total : ℕ → ℕ) (n : ℕ) (link : Option ℕ) (new : ℕ)
      → Triple
          (Holding total n (new ∷ held_by link))
          (release H link)
          (λ _. Holding total n (new ∷ []))
          (λ _. Holding total n [])
          OnlyIfBad
  unfolding release
  replace-Holding total n none new = Triple-pure tt
  replace-Holding total n (some old) new = record {
    at = λ w h.
        (Held.give_back-Holding H cap Bad unconnected unanswered total n (new ∷ []) old
            (λ _. Holding total n [])).at
          w (PoolIs-swap total n new old w.pool h);
  }

  pub Keeps-on_nested :
      (total : ℕ → ℕ) (n : ℕ) (held : List ℕ) (path message : String) (e : Exn)
      → Keeps total n held (on_nested H path message e)
  unfolding on_nested
  Keeps-on_nested total n held path message (flow e) = Triple-throw _
  Keeps-on_nested total n held path message e = Triple-throw _

  Keeps-asserts :
      (total : ℕ → ℕ) (n : ℕ) (held : List ℕ) (condition : Bool)
      → Keeps total n held (asserts H condition)
  unfolding asserts
  Keeps-asserts total n held true = Triple-pure tt
  Keeps-asserts total n held false = record { at = λ w h e. cc }

  pub Keeps-load_steps :
      (total : ℕ → ℕ) (n : ℕ) (held : List ℕ) (path : String)
      → Keeps total n held (load_steps H path)
  unfolding load_steps
  Keeps-load_steps total n held path =
      Triple-bind _ _ (Keeps-asserts total n held (H.is_directory path)) (λ _.
        Triple-bind _ _ (Keeps-asserts total n held _)
          (λ _. Triple-checked other _ (λ a w _ h. h) (λ m w _ h. h)))

  pub Keeps-env_json :
      (total : ℕ → ℕ) (n : ℕ) (held : List ℕ) (path : String) → Keeps total n held (env_json H path)
  unfolding env_json
  Keeps-env_json total n held path =
      Triple-if (H.exists (path // "env.json")) _ _
        (λ _.
          Triple-bind _ _ (Triple-checked inja _ (λ a w _ h. h) (λ m w _ h. h))
            (λ parsed. Triple-checked json_exn parsed (λ a w _ h. h) (λ m w _ h. h)))
        (λ _. Triple-pure _)
