-- ===== src/Runner/Flows/Sent.antt =====
-- The requests that are reported and the texts that are given to the sessions (src/flow/step/request.hpp,
-- src/web/connection_manager.hpp).
use cliot.Prelude.{
  ℕ, ◌≡◌, refl, sym, subst, ◌∙◌, inl, inr, false, List, [], ◌∷◌, ◌++◌, Option, none, some, String,
  append-nil, arith,
}
use cliot.Json.{value}
use cliot.Reporting.Requests.{reported, reported-append, Shows, ShowAll, ShowAll-append}
use cliot.Reporting.Events.{Event, simple, response}
use cliot.Exec.{json as json_exn}
use cliot.Exec.Triple.{
  Post, Triple, Triple-pure, Triple-throw, Triple-if, Triple-checked, Triple-bind, Triple-catch,
}
use cliot.Host.{Host}
use cliot.Util.AsyncQueue.{AsyncQueue, enqueue, dequeue}
use cliot.Util.AsyncQueue.Running.{dequeue_running}
use cliot.World.{World, Frame, with_event}
use cliot.Runner.Templates.Local.{Local-render_template}
use cliot.Runner.Steps.{perform, perform_body}
use cliot.Runner.Steps.Local.{Stays-of_Local}
use cliot.Runner.Flows.Framed.{Framed-of_Stays}
use cliot.Runner.Flows.Steady.{Parts}
use cliot.Web.Connections.{take_session, borrow, give_back, release, write}
use cliot.Web.Connections

module _ (H : Host) where
  open H use {json}
  open json use {Json}

  -- The pool is not stopped, and each report is of the text given to a session in its place.
  abbrev pub Truthful : World Json → Type 0
  Truthful w = (w.pool.stop_requested ≡ false) × ShowAll json (reported w.events) w.writes

  pub quiet :
      (w : World Json) (ev : Event Json)
      → reported (ev ∷ []) ≡ []
      → Truthful w
      → Truthful (with_event w ev)
  quiet w ev e h = (
    h.0,
    subst (λ r. ShowAll json r w.writes)
        (sym (reported-append w.events (ev ∷ []) ∙ (rw (e, append-nil) refl))) h.1,
  )

  Truthful-frame : Frame {Json = Json} Truthful
  Truthful-frame = record {
    on_store = λ w s h. h;
    on_clock = λ w n h. h;
    on_simple = λ w ev h. quiet w (simple ev) refl h;
    on_response = λ w ev h. quiet w (response ev) refl h;
  }

  enqueue-running :
      (q : AsyncQueue ℕ) (x : ℕ) (q' : AsyncQueue ℕ)
      → enqueue q x ≡ some q'
      → q'.stop_requested ≡ q.stop_requested
  unfolding enqueue
  enqueue-running q x q' e = ground arith

  Truthful-release :
      (link : Option ℕ)
      → Triple Truthful (release H link) (λ _. Truthful) (λ _. Truthful) (λ _. Unit {0})
  unfolding release
  Truthful-release none = Triple-pure tt
  Truthful-release (some ws) = record { at = λ w h. by_result w h (enqueue w.pool ws) refl }
    where
      by_result :
          (w : World Json)
          → Truthful w
          → (o : Option (AsyncQueue ℕ)) → enqueue w.pool ws ≡ o
          → Post
              (λ _. Truthful)
              (λ _. Truthful)
              (λ _. Unit {0})
              (give_back H ws w).0
              (give_back H ws w).1
      by_result w h none e = rw (e, give_back) tt
      by_result w h (some q) e = rw (e, give_back) (enqueue-running w.pool ws q e ∙ h.0, h.1)

  -- Between the report of a request and the call of `write`.
  abbrev Announced : String → World Json → Type 0
  Announced text w =
      (w.pool.stop_requested ≡ false)
      × ((earlier : List String) × (data_text : String) × (reported w.events
            ≡ earlier ++ data_text ∷ [])
          × Shows json data_text text
          × ShowAll json earlier w.writes)

  -- The pool gives a session, or the caller waits.
  take-Announced :
      (text : String) (w : World Json)
      → Announced text w
      → Post
          (λ _. Announced text)
          (λ _. Truthful)
          (λ _. Unit {0})
          (take_session H (dequeue w.pool) w).0
          (take_session H (dequeue w.pool) w).1
  unfolding take_session
  take-Announced text w h = elim (dequeue_running w.pool h.0) [
    | inl (e, d) ↦ rw (d, take_session) tt
    | inr (x, rest, e, d) ↦ rw (d, take_session) (h.0, h.1)
  ]

  ensure-Announced :
      (text : String) (ws : ℕ)
      → Triple
          (Announced text)
          (Connections.ensure_connection_established H ws)
          (λ _. Announced text)
          (λ _. Truthful)
          (λ _. Unit {0})
  unfolding Connections.ensure_connection_established
  ensure-Announced text ws =
      Triple-if (H.connects ws) _ _ (λ _. Triple-pure tt) (λ _. record { at = λ w h. tt })

  request-Truthful :
      (text : String)
      → Triple
          (Announced text)
          (Connections.request H text)
          (λ _. Truthful)
          (λ _. Truthful)
          (λ _. Unit {0})
  unfolding Connections.request borrow write
  request-Truthful text =
      Triple-bind {Q = λ _. Announced text} _ _
        (Triple-bind {Q = λ _. Announced text} _ _ (record { at = λ w h. take-Announced text w h })
          (λ ws. Triple-bind _ _ (ensure-Announced text ws) (λ _. Triple-pure ws)))
        (λ link.
          Triple-bind {Q = λ _. Truthful} _ _
            (Triple-bind _ _ (ensure-Announced text link) (λ _. record {
              at = λ w (running, (earlier, d, e, s, all)). (
                running,
                subst (λ r. ShowAll json r (w.writes ++ (link, text) ∷ [])) (sym e)
                    (ShowAll-append json earlier w.writes d link text all s),
              );
            }))
            (λ _. Triple-pure link))

  Truthful-perform :
      (path : String)
      → Triple Truthful (perform H path) (λ _. Truthful) (λ _. Truthful) (λ _. Unit {0})
  unfolding perform perform_body
  Truthful-perform path =
      Triple-catch {E = λ _. Truthful} _ _
        (Triple-bind _ _
          (Framed-of_Stays H Truthful Truthful-frame (λ _. Unit {0}) tt tt _
            (Stays-of_Local H Truthful Truthful-frame _
              (Local-render_template H Truthful Truthful-frame path)))
          (λ text.
            Triple-bind {Q = λ parsed w. Truthful w × (json.parse text ≡ value parsed)} _ _
              (Triple-checked json_exn (json.parse text) (λ a w e h. (h, e)) (λ m w _ h. h))
              (λ parsed.
                Triple-bind {Q = λ _. Announced text} _ _
                  (record {
                    at = λ w h. (
                      h.0.0,
                      (
                        reported w.events,
                        json.dump parsed,
                        reported-append w.events (_ ∷ []),
                        (parsed, h.1, refl),
                        h.0.1,
                      ),
                    );
                  })
                  (λ _. request-Truthful text))))
        (λ e. Triple-throw _)

  -- The parts of a flow keep the reports of requests true.
  pub Truthful-Parts : Parts H Truthful (λ _. Unit {0})
  Truthful-Parts = record {
    frame = Truthful-frame;
    on_release = Truthful-release;
    on_perform = Truthful-perform;
  }
