-- ===== src/Runner/Flows/Steady.antt =====
-- Properties of the state that no step of a flow can break (src/runner.hpp, src/flow/step), whatever
-- it does to the store, the connections and the reports of steps.
use cliot.Prelude.{ℕ, ◌≡◌, refl, List, Option, none, some, String}
use cliot.Exec.{
  Exec, Exn, Halt, waits, aborted, flow, inja, json as json_exn, other, pure, throw, checked, catch,
  ◌>>=◌, ◌>>◌,
}
use cliot.Exec.Triple.{
  Post-weaken, Triple, Triple-pure, Triple-throw, Triple-if, Triple-checked, Triple-bind,
  Triple-catch,
}
use cliot.Host.{Host}
use cliot.Util.AsyncQueue.{AsyncQueue, enqueue, dequeue}
use cliot.Reporting.Events.{RequestEvent, request as request_event}
use cliot.World.{World, Frame, with_event}
use cliot.Runner.Templates.Local.{Local-render_template}
use cliot.Runner.Steps.{perform, perform_body}
use cliot.Runner.Steps.Local.{Stays-of_Local}
use cliot.Runner.Flows.{unwinding}
use cliot.Web.Connections.{take_session, borrow, give_back, release, write, request}
use cliot.Runner.Flows.Framed.{Framed-of_Stays, Framed-ensure}

-- A frame that the connections cannot break either.
pub record IsSteady {Json : Type 0} (I : World Json → Type 0) : Type 0 where
  pub frame : Frame I
  pub on_request :
      (w : World Json) (ev : RequestEvent Json) → I w → I (with_event w (request_event ev))
  pub on_pool : (w : World Json) (p : AsyncQueue ℕ) → I w → I (record w { pool = p })
  pub on_writes : (w : World Json) (s : List (ℕ × String)) → I w → I (record w { writes = s })

-- `N` holds of the ways in which a step can hang: by waiting, or by an assertion.
module _ (H : Host) (I : World H.json.Json → Type 0) (s : IsSteady I) (N : Halt → Type 0)
    (waits_N : N waits) (aborted_N : N aborted) where
  open H use {json}
  open json use {Json}

  abbrev pub Steady {ℓ} : {A : Type ℓ} → Exec (World Json) A → Type ℓ
  Steady m = Triple I m (λ _. I) (λ _. I) N

  Steady-take_session : (o : Option (Option ℕ × AsyncQueue ℕ)) → Steady (take_session H o)
  unfolding take_session
  Steady-take_session none = record { at = λ w h. waits_N }
  Steady-take_session (some (none, q)) = record { at = λ w h. s.on_pool w q h }
  Steady-take_session (some (some ws, q)) = record { at = λ w h. s.on_pool w q h }

  Steady-give_back : (ws : ℕ) → Steady (give_back H ws)
  unfolding give_back
  Steady-give_back ws = record { at = λ w h. by_result w h (enqueue w.pool ws) refl }
    where
      by_result :
          (w : World Json)
          → I w
          → (o : Option (AsyncQueue ℕ)) → enqueue w.pool ws ≡ o
          → cliot.Exec.Triple.Post (λ _. I) (λ _. I) N (give_back H ws w).0 (give_back H ws w).1
      by_result w h none e = rw (e, give_back) waits_N
      by_result w h (some q) e = rw (e, give_back) (s.on_pool w q h)

  pub Steady-release : (link : Option ℕ) → Steady (release H link)
  unfolding release
  Steady-release none = Triple-pure tt
  Steady-release (some ws) = Steady-give_back ws

  Steady-request : (text : String) → Steady (request H text)
  unfolding request borrow write
  Steady-request text =
      Triple-bind _ _
        (Triple-bind _ _ (record { at = λ w h. (Steady-take_session (dequeue w.pool)).at w h })
          (λ ws.
            Triple-bind _ _ (Framed-ensure H I s.frame N waits_N aborted_N ws)
              (λ _. Triple-pure ws)))
        (λ link.
          Triple-bind _ _
            (Triple-bind _ _ (Framed-ensure H I s.frame N waits_N aborted_N link)
              (λ _. record { at = λ w h. s.on_writes w _ h }))
            (λ _. Triple-pure link))

  pub Steady-perform : (path : String) → Steady (perform H path)
  unfolding perform perform_body
  Steady-perform path =
      Triple-catch _ _
        (Triple-bind _ _
          (Framed-of_Stays H I s.frame N waits_N aborted_N _
            (Stays-of_Local H I s.frame _ (Local-render_template H I s.frame path)))
          (λ res.
            Triple-bind _ _ (Triple-checked json_exn (json.parse res) (λ a w _ h. h) (λ m w _ h. h))
              (λ parsed.
                Triple-bind _ _ (record { at = λ w h. s.on_request w _ h })
                  (λ _. Steady-request res))))
        (λ e. Triple-throw _)

-- What a whole flow needs of a property: that the frame, the end of a connection and a request step
-- keep it.
pub record Parts (H : Host) (I : World H.json.Json → Type 0) (N : Halt → Type 0) : Type 0 where
  pub frame : Frame I
  pub on_release : (link : Option ℕ) → Triple I (release H link) (λ _. I) (λ _. I) N
  pub on_perform : (path : String) → Triple I (perform H path) (λ _. I) (λ _. I) N

pub parts_of :
    (H : Host) (I : World H.json.Json → Type 0) (s : IsSteady I) (N : Halt → Type 0)
    → N waits
    → N aborted
    → Parts H I N
parts_of H I s N waits_N aborted_N = record {
  frame = s.frame;
  on_release = λ link. Steady-release H I s N waits_N aborted_N link;
  on_perform = λ path. Steady-perform H I s N waits_N aborted_N path;
}

pub Parts-unwinding {ℓ} :
    {A : Type ℓ} (H : Host) (I : World H.json.Json → Type 0) (N : Halt → Type 0) (p : Parts H I N)
    (link : Option ℕ) (m : Exec (World H.json.Json) A)
    → Triple I m (λ _. I) (λ _. I) N
    → Triple I (unwinding H link m) (λ _. I) (λ _. I) N
unfolding unwinding
Parts-unwinding H I N p link m t =
    Triple-catch m _ t (λ e. Triple-bind _ _ (p.on_release link) (λ _. Triple-throw e))
