-- ===== src/Runner/Flows/Raises.antt =====
-- What the parts of a flow outside its steps throw (src/runner.hpp, src/flow/flow.hpp, src/web), and
-- how what is known of a FlowException is widened.
use cliot.Prelude.{subst, sym, List, ℕ, ◌≡◌, refl, Bool, true, false, Option, none, some, String}
use cliot.Json.{value}
use cliot.Exec.{Exec, Exn, FlowException, flow, inja, json as json_exn, other}
use cliot.Exec.Triple.{
  Post, Triple, Triple-pure, Triple-throw, Triple-if, Triple-checked, Triple-bind, Triple-catch,
  Triple-weaken,
}
use cliot.Host.{Host, Arrival, message, read_error, silence}
use cliot.Util.AsyncQueue.{AsyncQueue, enqueue}
use cliot.World.{World}
use cliot.Flow.FilePath.{◌//◌}
use cliot.Runner.Flows.{asserts, load_steps, unwinding, env_json}
use cliot.Reporting.Events.{Event}
use cliot.Runner.Flows.Failing.{Received}
use cliot.Runner.Flows.Framed.{script_at}
use cliot.Web.Connections.{ensure_connection_established, give_back, release, arrived, read_one}

-- If it is a FlowException, then `F` holds of it.
abbrev pub IfFlow : (FlowException → Type 0) → Exn → Type 0
IfFlow F (flow e) = F e
IfFlow F e = Unit

pub IfFlow-map :
    (F G : FlowException → Type 0)
    → ((e : FlowException) → F e → G e)
    → (x : Exn) → IfFlow F x
    → IfFlow G x
IfFlow-map F G f (flow e) h = f e h
IfFlow-map F G f (inja m) h = tt
IfFlow-map F G f (json_exn m) h = tt
IfFlow-map F G f (other m) h = tt

module _ (H : Host) (F : FlowException → List (Event H.json.Json) → Type 0) where
  open H use {json}
  open json use {Json}

  -- `F` tells of a FlowException and of the reports that were made before it.
  abbrev pub Fails : Exn → World Json → Type 0
  Fails e w = IfFlow (λ x. F x w.events) e

  abbrev pub Raises {ℓ} : {A : Type ℓ} → Exec (World Json) A → Type ℓ
  Raises m = Triple (λ _. Unit {0}) m (λ _ _. Unit {0}) Fails (λ _. Unit {0})

  Raises-ensure : (ws : ℕ) → Raises (ensure_connection_established H ws)
  unfolding ensure_connection_established
  Raises-ensure ws =
      Triple-if (H.connects ws) _ _ (λ _. Triple-pure tt) (λ _. record { at = λ w h. tt })

  -- Nothing is reported while a session is given back.
  release-events :
      (evs : List (Event Json)) (link : Option ℕ)
      → Triple
          (λ w. w.events ≡ evs)
          (release H link)
          (λ _ w. w.events ≡ evs)
          (λ _ _. ⊥)
          (λ _. Unit {0})
  unfolding release give_back
  release-events evs none = Triple-pure tt
  release-events evs (some ws) = record { at = λ w h. by_result w h (enqueue w.pool ws) refl }
    where
      by_result :
          (w : World Json)
          → w.events ≡ evs
          → (o : Option (AsyncQueue ℕ)) → enqueue w.pool ws ≡ o
          → Post
              (λ _ v. v.events ≡ evs)
              (λ _ _. ⊥)
              (λ _. Unit {0})
              (give_back H ws w).0
              (give_back H ws w).1
      by_result w h none e = rw (e, give_back) tt
      by_result w h (some q) e = rw (e, give_back) h

  pub Raises-release : (link : Option ℕ) → Raises (release H link)
  Raises-release link = record {
    at = λ w h.
        (Triple-weaken {W = World Json} {F = Fails} {M = λ _. Unit {0}} (release H link)
            (λ a v k. tt) (λ e v k. absurd k) (λ x k. tt) (release-events w.events link)).at
          w refl;
  }

  arrived-Received :
      (ws clock : ℕ) (a : Arrival)
      → H.receive clock ws ≡ a
      → Triple (λ _. Unit {0}) (arrived H a) (λ text _. Received H ws text) Fails (λ _. Unit {0})
  unfolding arrived
  arrived-Received ws clock (message text) e = record { at = λ w h. (clock, e) }
  arrived-Received ws clock (read_error m) e = Triple-throw _
  arrived-Received ws clock silence e = record { at = λ w h. tt }

  pub read_one-Received :
      (ws : ℕ)
      → Triple (λ _. Unit {0}) (read_one H ws) (λ text _. Received H ws text) Fails (λ _. Unit {0})
  unfolding read_one
  read_one-Received ws = Triple-bind _ _ (Raises-ensure ws) (λ _. record {
    at = λ w h. (arrived-Received ws w.clock (H.receive w.clock ws) refl).at _ tt;
  })

  Raises-asserts : (condition : Bool) → Raises (asserts H condition)
  unfolding asserts
  Raises-asserts true = Triple-pure tt
  Raises-asserts false = record { at = λ w h. tt }

  pub Raises-load_steps :
      (path : String)
      → Triple
          (λ _. Unit {0})
          (load_steps H path)
          (λ steps _. script_at H path ≡ value steps)
          Fails
          (λ _. Unit {0})
  unfolding load_steps
  Raises-load_steps path = Triple-bind _ _ (Raises-asserts (H.is_directory path)) (λ _.
      Triple-bind _ _ (Raises-asserts _)
        (λ _. Triple-checked other _ (λ a w e h. e) (λ m w _ h. tt)))

  pub Raises-env_json : (path : String) → Raises (env_json H path)
  unfolding env_json
  Raises-env_json path =
      Triple-if (H.exists (path // "env.json")) _ _
        (λ _.
          Triple-bind _ _ (Triple-checked inja _ (λ a w _ h. tt) (λ m w _ h. tt))
            (λ parsed. Triple-checked json_exn parsed (λ a w _ h. tt) (λ m w _ h. tt)))
        (λ _. Triple-pure _)

  -- Unwinding passes on what the step has thrown.
  pub Raises-unwinding {ℓ} :
      {A : Type ℓ} (link : Option ℕ) (m : Exec (World Json) A)
      → Raises m
      → Raises (unwinding H link m)
  unfolding unwinding
  Raises-unwinding link m t = Triple-catch {E = Fails} m _ t (λ e. record {
    at = λ w h.
        (Triple-bind {Q = λ _ v. v.events ≡ w.events} {E = Fails} (release H link) _
            (Triple-weaken (release H link) (λ a v k. k) (λ x v k. absurd k) (λ x k. k)
              (release-events w.events link))
            (λ _. record { at = λ v k. subst (λ evs. IfFlow (λ x. F x evs) e) (sym k) h })).at
          w refl;
  })

-- What fails in a way that `F` describes fails in every wider way.
pub Raises-map {ℓ} :
    {A : Type ℓ} (H : Host) (F G : FlowException → List (Event H.json.Json) → Type 0)
    → ((e : FlowException) (evs : List (Event H.json.Json)) → F e evs → G e evs)
    → (m : Exec (World H.json.Json) A) → Raises H F m
    → Raises H G m
Raises-map H F G f m t =
    Triple-weaken m (λ a v h. h)
      (λ e v h. IfFlow-map (λ x. F x v.events) (λ x. G x v.events) (λ x. f x v.events) e h)
      (λ x h. h) t
