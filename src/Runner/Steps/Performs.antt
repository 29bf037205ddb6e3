-- ===== src/Runner/Steps/Performs.antt =====
-- How a request step ends (src/flow/step/request.hpp), with the session that it borrows and writes to
-- (src/web/connection_manager.hpp, src/web/async_connection_pool.cpp).
use cliot.Prelude.{
  ℕ, String, ◌≡◌, ◌⊎◌, inl, inr, refl, sym, ap, ◌∙◌, Bool-cases, true, false, List, [], ◌∷◌, ◌++◌,
}
use cliot.Json.{value, fails}
use cliot.Reporting.Events.{request as request_event}
use cliot.Exec.{Exn, Halt, json as json_exn, what, waits, Outcome, returns, throws, halts, ◌>>=◌}
use cliot.Exec.Triple.{
  Post, Triple, Triple-pure, Triple-if, Triple-checked, Triple-bind, Triple-catch, Triple-weaken,
}
use cliot.Host.{Host}
use cliot.Util.AsyncQueue.{dequeue}
use cliot.Util.AsyncQueue.Running.{dequeue_running, dequeue_stopped}
use cliot.World.{World, Frame, with_event}
use cliot.Runner.Callbacks.Local.{NotFlow}
use cliot.Runner.Templates.{render_template}
use cliot.Runner.Templates.Local.{Local-render_template}
use cliot.Runner.Steps.{flow_exception, logic_issue, perform, perform_body}
use cliot.Web.Connections.{take_session, borrow, write, ensure_connection_established}
use cliot.Web.Connections

module _ (H : Host) (path : String) (w : World H.json.Json) where
  open H use {json}
  open json use {Json}

  -- The state after the rendering, and then with the report of the request.
  abbrev rendered : World Json
  rendered = (render_template H path w).1

  abbrev announced : Json → World Json
  announced parsed =
      with_event rendered (
        request_event
          (record { path = path; store = rendered.store; data_text = json.dump parsed }))

  -- The template gives the text, and this parses.
  abbrev Renders : String → Json → Type 0
  Renders text parsed =
      ((render_template H path w).0 ≡ returns text) × (json.parse text ≡ value parsed)

  -- The connections are as they were before the step.
  abbrev Unused : World Json → Type 0
  Unused v = (v.pool ≡ w.pool) × (v.writes ≡ w.writes)

  -- The request was reported and `write` called with its text on the session that was first in the pool,
  -- which the step holds now.
  abbrev pub Writes : ℕ → World Json → Type 0
  Writes ws v =
      (text : String) × (parsed : Json) × (rest : List ℕ) × Renders text parsed
      × (w.pool.stop_requested ≡ false)
      × (w.pool.q ≡ ws ∷ rest)
      × (H.connects ws ≡ true)
      × (v ≡ record (announced parsed) {
        pool = record w.pool { q = rest };
        writes = w.writes ++ (ws, text) ∷ [];
      })

  -- What goes wrong in a step, by its message, and the state then: the rendering throws, its text does
  -- not parse, or the pool is stopped.
  abbrev pub Wrong : String → World Json → Type 0
  Wrong m v =
      ((x : Exn) × ((render_template H path w).0 ≡ throws x) × (m ≡ what x) × (v ≡ rendered))
      ⊎ (((text : String) × ((render_template H path w).0 ≡ returns text)
            × (json.parse text ≡ fails m)
            × (v ≡ rendered))
          ⊎ ((text : String) × (parsed : Json) × Renders text parsed
              × (w.pool.stop_requested ≡ true)
              × (m ≡ "Could not borrow ws connection")
              × (v ≡ announced parsed)))

  -- Why the step never comes back: there is no session in the pool, or the first one does not connect.
  abbrev pub Blocks : Halt → Type 0
  Blocks h =
      (h ≡ waits)
      × (w.pool.stop_requested ≡ false)
      × ((w.pool.q ≡ [])
          ⊎ ((ws : ℕ) × (rest : List ℕ) × (w.pool.q ≡ ws ∷ rest) × (H.connects ws ≡ false)))

  abbrev Fails : Exn → World Json → Type 0
  Fails e v = Wrong (what e) v × Unused v

  Unused-frame : Frame {Json = Json} Unused
  Unused-frame = record {
    on_store = λ v s h. h;
    on_clock = λ v n h. h;
    on_simple = λ v ev h. h;
    on_response = λ v ev h. h;
  }

  abbrev Rendered : String → World Json → Type 0
  Rendered text v = ((render_template H path w).0 ≡ returns text) × (v ≡ rendered) × Unused v

  render_result :
      (r : Outcome String) (v : World Json)
      → (render_template H path w).0 ≡ r
      → rendered ≡ v
      → Post (λ _. Unused) (λ e v. Unused v × NotFlow e) (λ _. ⊥) r v
      → Post Rendered Fails Blocks r v
  render_result (returns text) v e s p = (e, sym s, p)
  render_result (throws x) v e s p = (inl (x, e, refl, sym s), p.0)
  render_result (halts x) v e s p = absurd p

  render-Rendered : Triple (λ v. v ≡ w) (render_template H path) Rendered Fails Blocks
  render-Rendered = record {
    at = λ v h.
        render_result _ _ (ap (λ u. (render_template H path u).0) (sym h))
          (ap (λ u. (render_template H path u).1) (sym h))
          ((Local-render_template H Unused Unused-frame path).at v
            (ap (λ u. u.pool) h, ap (λ u. u.writes) h));
  }

  module _ (text : String) (parsed : Json) (renders : Renders text parsed) where
    abbrev Announced : World Json → Type 0
    Announced v = (v ≡ announced parsed) × Unused v

    -- The session was taken, and the text not yet written.
    abbrev Taken : ℕ → World Json → Type 0
    Taken ws v =
        (rest : List ℕ) × (w.pool.stop_requested ≡ false)
        × (w.pool.q ≡ ws ∷ rest)
        × (v ≡ record (announced parsed) { pool = record w.pool { q = rest } })
        × (v.writes ≡ w.writes)

    take-Taken :
        (v : World Json)
        → Announced v
        → Post Taken Fails Blocks
            (take_session H (dequeue v.pool) v).0
            (take_session H (dequeue v.pool) v).1
    unfolding take_session what
    take-Taken v (a, (p, s)) = elim (Bool-cases v.pool.stop_requested) [
      | inl t ↦
          rw (dequeue_stopped v.pool t, take_session)
            ((
              inr (inr (text, parsed, renders, ap (λ u. u.stop_requested) (sym p) ∙ t, refl, a)),
              (p, s),
            ))
      | inr f ↦ elim (dequeue_running v.pool f) [
        | inl (e, d) ↦
            rw (d, take_session)
              ((refl, ap (λ u. u.stop_requested) (sym p) ∙ f, inl (ap (λ u. u.q) (sym p) ∙ e)))
        | inr (ws, rest, e, d) ↦
            rw (d, take_session)
              (
                rest,
                ap (λ u. u.stop_requested) (sym p) ∙ f,
                ap (λ u. u.q) (sym p) ∙ e,
                ap {A = World Json} (λ u. record u { pool = record v.pool { q = rest } }) a
                    ∙ ap (λ u. record (announced parsed) { pool = record u { q = rest } }) p,
                s,
              )
      ]
    ]

    ensure-Taken :
        (ws : ℕ)
        → Triple
            (Taken ws)
            (ensure_connection_established H ws)
            (λ _ v. Taken ws v × (H.connects ws ≡ true))
            Fails
            Blocks
    unfolding ensure_connection_established
    ensure-Taken ws =
        Triple-if (H.connects ws) _ _ (λ e. record { at = λ v h. (h, e) })
          (λ e. record { at = λ v (rest, f, q, a, s). (refl, f, inr (ws, rest, q, e)) })

    write-Writes : (ws : ℕ) → Triple (Taken ws) (write H ws text) (λ _. Writes ws) Fails Blocks
    unfolding write
    write-Writes ws = Triple-bind _ _ (ensure-Taken ws) (λ _. record {
      at = λ v ((rest, f, q, a, s), c). (
        text,
        parsed,
        rest,
        renders,
        f,
        q,
        c,
        ap {A = World Json} (λ u. record u { writes = v.writes ++ (ws, text) ∷ [] }) a
            ∙ ap
                (λ s. record (announced parsed) {
                  pool = record w.pool { q = rest };
                  writes = s ++ (ws, text) ∷ [];
                })
                s,
      );
    })

    request-Writes : Triple Announced (Connections.request H text) Writes Fails Blocks
    unfolding Connections.request borrow
    request-Writes =
        Triple-bind {Q = Taken} _ _
          (Triple-bind {Q = Taken} _ _ (record { at = λ v h. take-Taken v h })
            (λ ws.
              Triple-bind {Q = λ _. Taken ws} _ _
                (Triple-weaken _ (λ a v h. h.0) (λ e v h. h) (λ x h. h) (ensure-Taken ws))
                (λ _. Triple-pure ws)))
          (λ link. Triple-bind _ _ (write-Writes link) (λ _. Triple-pure link))

  perform_body-Writes : Triple (λ v. v ≡ w) (perform_body H path) Writes Fails Blocks
  unfolding perform_body what ◌>>=◌ Connections.request
  perform_body-Writes = Triple-bind _ _ render-Rendered (λ text.
      Triple-bind {Q = λ parsed v. (json.parse text ≡ value parsed) × Rendered text v} _ _
        (Triple-checked json_exn (json.parse text) (λ a v e h. (e, h))
          (λ m v e h. (inr (inl (text, h.0, e, h.1)), h.2)))
        (λ parsed. record {
          at = λ v (e, (r, s, u)). (request-Writes text parsed (r, e)).at _ (
            ap
                (λ z. with_event z (
                  request_event
                    (record { path = path; store = z.store; data_text = json.dump parsed })))
                s,
            u,
          );
        }))

  -- How a request step ends. If it returns, then the template gave a text that parses; the request was
  -- reported, with the store after the rendering and the dump of the parsed text;
  -- WebSocketSession::write was called with the text, on the first session of the running pool, which is
  -- connected; and the step returns this session, which has left the pool. If it throws, then a
  -- FlowException with the step's path, "No data", and one LOGIC issue whose message is that of what went
  -- wrong: of the exception of the rendering, of the parser's, or "Could not borrow ws connection" with a
  -- stopped pool; the pool and the texts written are as before. It never comes back only if the running
  -- pool has no session, or its first one does not connect.
  pub perform-Writes :
      Post Writes
        (λ e v.
          (m : String) × (e ≡ flow_exception path (logic_issue path m "" ∷ []) "No data")
          × Wrong m v
          × (v.pool ≡ w.pool)
          × (v.writes ≡ w.writes))
        Blocks
        (perform H path w).0
        (perform H path w).1
  unfolding perform
  perform-Writes =
      (Triple-catch {E = Fails} _ _ perform_body-Writes
          (λ e. record { at = λ v (wrong, (p, s)). (what e, refl, wrong, p, s) })).at
        w refl
