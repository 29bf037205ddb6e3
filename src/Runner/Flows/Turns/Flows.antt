-- ===== src/Runner/Flows/Turns/Flows.antt =====
-- The turns of the sessions in a flow without subflows and blocks (src/runner.hpp,
-- src/web/async_connection_pool.cpp).
use cliot.Prelude.{
  ℕ, zero, suc, ◌≡◌, List, [], ◌∷◌, ◌++◌, Option, none, some, String, All, arith, length-append,
  inl, inr,
}
use cliot.Json.{value}
use cliot.Exec.{Exec, Exn, Halt, json as json_exn}
use cliot.Exec.Triple.{
  Triple, Triple-pure, Triple-throw, Triple-bind, Triple-catch, Triple-checked, Triple-if,
}
use cliot.Host.{Host}
use cliot.World.{World, Frame}
use cliot.Flow.Descriptors.{Steps}
use cliot.Runner.Templates.Local.{Local-render_template}
use cliot.Runner.Steps.{perform, perform_body}
use cliot.Runner.Steps.Local.{Stays-of_Local}
use cliot.Runner.Flows.{
  FlowStep, request_step, response_step, run_flow_step, repeat_block_step, load_from, unwinding,
  run_steps, run_loaded, run_flow, run_top,
}
use cliot.Runner.Flows.Framed.{
  script_at, Framed-of_Stays, Framed-respond, Framed-load_steps, Framed-env_json,
}
use cliot.Util.AsyncQueue.{dequeue}
use cliot.Util.AsyncQueue.Running.{enqueue_running, dequeue_running}
use cliot.Web.Connections.{
  ensure_connection_established, take_session, borrow, give_back, release, write, request,
}
use cliot.Web.Connections.Held.{held_by}
use cliot.Runner.Flows.Turns.{IsPlain, InTurn, Taken, InTurn-of_Taken, InTurn-back, Taken-first}

module _ (H : Host) (line : List ℕ) where
  open H use {json}
  open json use {Json}

  abbrev N : Halt → Type 0
  N h = Unit {0}

  abbrev pub Turn : List ℕ → World Json → Type 0
  Turn held w = InTurn line held w.pool w.writes

  Turn-frame : (held : List ℕ) → Frame (Turn held)
  Turn-frame held = record {
    on_store = λ w s h. h;
    on_clock = λ w c h. h;
    on_simple = λ w ev h. h;
    on_response = λ w ev h. h;
  }

  give_back-Turn :
      (held : List ℕ) (ws : ℕ) (E : Exn → World Json → Type 0)
      → Triple (Turn (ws ∷ held)) (give_back H ws) (λ _. Turn held) E N
  unfolding give_back
  give_back-Turn held ws E = record {
    at = λ w h.
        rw
          (
            enqueue_running w.pool ws h.running
                (omega (arith, h.roomy, length-append w.pool.q (ws ∷ held))),
            give_back,
          )
          (InTurn-back line held ws w.pool w.writes h);
  }

  release-Turn :
      (link : Option ℕ) (held : List ℕ) (E : Exn → World Json → Type 0)
      → Triple (Turn (held_by link ++ held)) (release H link) (λ _. Turn held) E N
  unfolding release
  release-Turn none held E = Triple-pure tt
  release-Turn (some ws) held E = give_back-Turn held ws E

  -- The one held session goes back.
  freed :
      (link : Option ℕ) {E : Exn → World Json → Type 0}
      → Triple (Turn (held_by link)) (release H link) (λ _. Turn []) E N
  unfolding release
  freed none = Triple-pure tt
  freed (some ws) = give_back-Turn [] ws _

  ensure-any :
      {P : World Json → Type 0} {E : Exn → World Json → Type 0} (ws : ℕ)
      → Triple P (ensure_connection_established H ws) (λ _. P) E N
  unfolding ensure_connection_established
  ensure-any ws =
      Triple-if (H.connects ws) _ _ (λ _. Triple-pure tt) (λ _. record { at = λ w h. tt })

  take_session-Taken :
      (held : List ℕ)
      → Triple
          (Turn held)
          (λ w. take_session H (dequeue w.pool) w)
          (λ ws w. Taken line held ws w.pool w.writes)
          (λ _. Turn held)
          N
  unfolding take_session
  take_session-Taken held = record {
    at = λ w h. elim (dequeue_running w.pool h.running) [
      | inl (e, d) ↦ rw (d, take_session) tt
      | inr (ws, rest, e, d) ↦
          rw (d, take_session) (Taken-first line held ws rest w.pool w.writes e h)
    ];
  }

  request-Turn :
      (held : List ℕ) (text : String)
      → Triple (Turn held) (request H text) (λ ws. Turn (held ++ ws ∷ [])) (λ _. Turn held) N
  unfolding request borrow write
  request-Turn held text =
      Triple-bind {Q = λ ws w. Taken line held ws w.pool w.writes} _ _
        (Triple-bind {Q = λ ws w. Taken line held ws w.pool w.writes} _ _ (take_session-Taken held)
          (λ ws. Triple-bind _ _ (ensure-any ws) (λ _. Triple-pure ws)))
        (λ link.
          Triple-bind _ _
            (Triple-bind _ _ (ensure-any link)
              (λ _. record { at = λ w h. InTurn-of_Taken line held link w.pool w.writes text h }))
            (λ _. Triple-pure link))

  -- A request takes the session that waits longest, and holds it behind the others.
  perform-Turn :
      (held : List ℕ) (path : String)
      → Triple (Turn held) (perform H path) (λ ws. Turn (held ++ ws ∷ [])) (λ _. Turn held) N
  unfolding perform perform_body
  perform-Turn held path =
      Triple-catch _ _
        (Triple-bind _ _
          (Framed-of_Stays H (Turn held) (Turn-frame held) N tt tt _ (
            Stays-of_Local H (Turn held) (Turn-frame held) _
              (Local-render_template H (Turn held) (Turn-frame held) path)))
          (λ res.
            Triple-bind _ _ (Triple-checked json_exn (json.parse res) (λ a w _ h. h) (λ m w _ h. h))
              (λ parsed. Triple-bind _ _ (record { at = λ w h. h }) (λ _. request-Turn held res))))
        (λ e. Triple-throw _)

  unwinding-Turn :
      {A : Type 0} (link : Option ℕ) (m : Exec (World Json) A) (Q : A → World Json → Type 0)
      → Triple (Turn (held_by link)) m Q (λ _. Turn (held_by link)) N
      → Triple (Turn (held_by link)) (unwinding H link m) Q (λ _. Turn []) N
  unfolding unwinding
  unwinding-Turn link m Q t =
      Triple-catch m _ t
        (λ e. Triple-bind {Q = λ _. Turn []} _ _ (freed link) (λ _. Triple-throw e))

  run_steps-Turn :
      (nested : String → String → Steps → Exec (World Json) (Unit {0})) (link : Option ℕ)
      (steps : List FlowStep)
      → All IsPlain steps
      → Triple (Turn (held_by link)) (run_steps H nested link steps) (λ _. Turn []) (λ _. Turn []) N
  unfolding run_steps
  run_steps-Turn nested link [] plain = freed link
  run_steps-Turn nested link (request_step path ∷ rest) plain =
      Triple-bind _ _
        (unwinding-Turn link (perform H path) (λ ws. Turn (held_by link ++ ws ∷ []))
          (perform-Turn (held_by link) path))
        (λ new.
          Triple-bind _ _ (release-Turn link (new ∷ []) (λ _. Turn []))
            (λ _. run_steps-Turn nested (some new) rest plain.1))
  run_steps-Turn nested link (response_step path v ∷ rest) plain =
      Triple-bind _ _
        (unwinding-Turn link _ _
          (Framed-respond H (Turn (held_by link)) (Turn-frame (held_by link)) N tt tt link path v))
        (λ _. run_steps-Turn nested link rest plain.1)
  run_steps-Turn nested link (run_flow_step path ∷ rest) plain = absurd plain.0
  run_steps-Turn nested link (repeat_block_step path repeat steps ∷ rest) plain = absurd plain.0

  run_flow-Turn :
      (depth : ℕ) (name path : String) (steps : Steps)
      → All IsPlain (load_from steps path)
      → Triple (Turn []) (run_flow H depth name path steps) (λ _. Turn []) (λ _. Turn []) N
  unfolding run_flow run_loaded
  run_flow-Turn zero name path steps plain = record { at = λ w h. tt }
  run_flow-Turn (suc depth) name path steps plain =
      Triple-bind _ _ (record { at = λ w h. h })
        (λ _. run_steps-Turn (run_flow H depth) none (load_from steps path) plain)

  pub run_top-Turn :
      (depth : ℕ) (name path : String)
      → ((steps : Steps) → script_at H path ≡ value steps → All IsPlain (load_from steps path))
      → Triple (Turn []) (run_top H depth name path) (λ _. Turn []) (λ _. Turn []) N
  unfolding run_top
  run_top-Turn depth name path plain =
      Triple-bind _ _ (Framed-env_json H (Turn []) (Turn-frame []) N tt tt path) (λ store.
        Triple-bind _ _ (record { at = λ w h. h })
          (λ _.
            Triple-bind _ _ (Framed-load_steps H (Turn []) (Turn-frame []) N tt tt path) (λ steps.
              record {
                at = λ w h. (run_flow-Turn depth name path steps (plain steps h.0)).at w h.1;
              })))
