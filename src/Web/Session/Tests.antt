-- ===== src/Web/Session/Tests.antt =====
-- A session that connects while a thread waits for it (src/web/web_socket_session.cpp). The endpoints
-- are a text.
use cliot.Prelude.{◌≤◌, String, ◌≡◌, refl, true, List, [], ◌∷◌, none, length}
use cliot.Web.Session.{
  Session, Action, new_session, on_resolve, on_connect, on_handshake, wait_connected, resolve_done,
  waits, resolved, waiting, Run, start, next,
}
use cliot.Web.Session.Progress.{progress, Agrees}
use cliot.Web.Session.Reached.{Run-Agrees}
use cliot.Web.Session.Connecting.{Connects, Run-Connects}

abbrev waited : List (Action String)
waited = resolve_done none "endpoints" ∷ waits 7 ∷ []

abbrev while_waiting : Session String
while_waiting =
    on_resolve none "endpoints"
      (record (wait_connected 7 (new_session "localhost" "51233")) { pending = [] })

waited-Run : Run "localhost" "51233" waited while_waiting
unfolding wait_connected new_session on_resolve
waited-Run =
    next (resolve_done none "endpoints") (next (waits 7) start (waiting 7 refl refl))
      (resolved "localhost" "51233" [] [] none "endpoints" refl refl refl)

abbrev open_session : Session String
open_session =
    on_handshake none
      (record (on_connect none "443" (record while_waiting { pending = [] })) { pending = [] })

-- The thread is awake again.
opened_session :
    ((open_session).host ≡ "localhost:443")
    × ((open_session).is_connected ≡ true)
    × ((open_session).sleeping ≡ [])
    × ((while_waiting).sleeping ≡ 7 ∷ [])
unfolding wait_connected new_session on_resolve on_connect on_handshake
opened_session = (refl, refl, refl, refl)

Run-Agrees_example : Agrees "localhost" "51233" (progress waited) while_waiting
Run-Agrees_example = Run-Agrees "localhost" "51233" waited while_waiting waited-Run

Run-Connects_example :
    (more : List (Action String)) × (length more ≤ 3) × Connects "localhost" "51233" more waited
Run-Connects_example =
    Run-Connects "localhost" "51233" waited while_waiting "endpoints" "443" waited-Run
      (λ suffix e. cc)
