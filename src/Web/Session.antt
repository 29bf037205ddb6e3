-- ===== src/Web/Session.antt =====
-- WebSocketSession (src/web/web_socket_session.cpp) with its asynchronous operations: what a call or a
-- handler starts is pending until its handler runs, and the threads that wait in
-- ensure_connection_established sleep.
pub mod Progress
pub mod Handlers
pub mod Reached
pub mod Connecting
mod Tests
use cliot.Prelude.{
  ℕ, String, ◌+++◌, ◌≡◌, refl, Bool, true, false, List, [], ◌∷◌, ◌++◌, Option, none, some,
  if◌then◌else◌,
}

module _ (Endpoints : Type 0) where
  -- An asynchronous operation with its arguments.
  pub data Operation : Type 0 where
    resolve : String → String → Operation
    connect_to : Endpoints → Operation
    handshake : String → String → Operation
    write : String → Operation
    close : Operation

  -- `expires` is the limit of the lowest layer in seconds, `suggested_timeouts` and `user_agent` the
  -- options of the stream, and `sleeping` the threads in is_connected_.wait.
  pub record Session : Type 0 where
    pub host : String
    pub port : String
    pub is_connected : Bool
    pub expires : Option ℕ
    pub suggested_timeouts : Bool
    pub user_agent : Option String
    pub pending : List Operation
    pub sleeping : List ℕ

module _ {Endpoints : Type 0} where
  abbrev pub begin : Operation Endpoints → Session Endpoints → Session Endpoints
  begin op s = record s { pending = s.pending ++ op ∷ [] }

  -- WebSocketSession::connect
  unfoldable pub connect : Session Endpoints → Session Endpoints
  connect s = begin (resolve s.host s.port) (record s { is_connected = false })

  -- The constructor.
  unfoldable pub new_session : String → String → Session Endpoints
  unfolding connect
  new_session host port = connect (record {
    host = host;
    port = port;
    is_connected = false;
    expires = none;
    suggested_timeouts = false;
    user_agent = none;
    pending = [];
    sleeping = [];
  })

  -- `fail` does nothing.
  unfoldable pub fail : Session Endpoints → Session Endpoints
  fail s = s

  unfoldable pub on_resolve : Option String → Endpoints → Session Endpoints → Session Endpoints
  unfolding fail
  on_resolve (some ec) results s = fail s
  on_resolve none results s = begin (connect_to results) (record s { expires = some 30 })

  -- `ep_port` is std::to_string of the port of the endpoint.
  unfoldable pub on_connect : Option String → String → Session Endpoints → Session Endpoints
  unfolding fail
  on_connect (some ec) ep_port s = fail s
  on_connect none ep_port s =
      let host = s.host +++ (":" +++ ep_port) in
      begin (handshake host "/") (record s {
        expires = none;
        suggested_timeouts = true;
        user_agent = some "cliot";
        host = host;
      })

  -- A thread that calls `wait` between the store and notify_all sees true and does not sleep.
  unfoldable pub on_handshake : Option String → Session Endpoints → Session Endpoints
  unfolding fail
  on_handshake (some ec) s = fail s
  on_handshake none s = record s { is_connected = true; sleeping = [] }

  unfoldable pub on_write : Option String → Session Endpoints → Session Endpoints
  unfolding fail
  on_write (some ec) s = fail s
  on_write none s = s

  unfoldable pub on_close : Option String → Session Endpoints → Session Endpoints
  unfolding fail
  on_close (some ec) s = fail s
  on_close none s = s

  -- ensure_connection_established on a thread: is_connected_.wait(false).
  unfoldable pub wait_connected : ℕ → Session Endpoints → Session Endpoints
  wait_connected thread s =
      if s.is_connected then s else record s { sleeping = thread ∷ s.sleeping }

  -- WebSocketSession::write after its wait.
  unfoldable pub async_write : String → Session Endpoints → Session Endpoints
  async_write text s = begin (write text) s

  -- WebSocketSession::close
  unfoldable pub async_close : Session Endpoints → Session Endpoints
  async_close s = begin close s

-- What happens: an operation completes, with its error code or none, or a thread makes a call.
pub data Action (Endpoints : Type 0) : Type 0 where
  resolve_done : Option String → Endpoints → Action Endpoints
  connect_done : Option String → String → Action Endpoints
  handshake_done : Option String → Action Endpoints
  write_done : Option String → Action Endpoints
  close_done : Option String → Action Endpoints
  waits : ℕ → Action Endpoints
  writes : String → Action Endpoints
  closes : Action Endpoints

module _ {Endpoints : Type 0} where
  -- A pending operation is taken out when its handler runs.
  abbrev pub without : Session Endpoints → List (Operation Endpoints) → Session Endpoints
  without s rest = record s { pending = rest }

  pub data Step (s : Session Endpoints) (a : Action Endpoints) (t : Session Endpoints)
      : Type 0 where
    resolved :
        (host port : String) (before after : List (Operation Endpoints)) (ec : Option String)
        (results : Endpoints)
        → s.pending ≡ before ++ resolve host port ∷ after
        → a ≡ resolve_done ec results
        → t ≡ on_resolve ec results (without s (before ++ after))
        → Step s a t
    connected :
        (results : Endpoints) (before after : List (Operation Endpoints)) (ec : Option String)
        (ep_port : String)
        → s.pending ≡ before ++ connect_to results ∷ after
        → a ≡ connect_done ec ep_port
        → t ≡ on_connect ec ep_port (without s (before ++ after))
        → Step s a t
    shaken :
        (host target : String) (before after : List (Operation Endpoints)) (ec : Option String)
        → s.pending ≡ before ++ handshake host target ∷ after
        → a ≡ handshake_done ec
        → t ≡ on_handshake ec (without s (before ++ after))
        → Step s a t
    written :
        (text : String) (before after : List (Operation Endpoints)) (ec : Option String)
        → s.pending ≡ before ++ write text ∷ after
        → a ≡ write_done ec
        → t ≡ on_write ec (without s (before ++ after))
        → Step s a t
    closed :
        (before after : List (Operation Endpoints)) (ec : Option String)
        → s.pending ≡ before ++ close ∷ after
        → a ≡ close_done ec
        → t ≡ on_close ec (without s (before ++ after))
        → Step s a t
    waiting : (thread : ℕ) → a ≡ waits thread → t ≡ wait_connected thread s → Step s a t
    writing :
        (text : String)
        → s.is_connected ≡ true
        → a ≡ writes text
        → t ≡ async_write text s
        → Step s a t
    closing : a ≡ closes → t ≡ async_close s → Step s a t

  -- A new session after some actions, the latest first.
  pub data Run (host port : String) : List (Action Endpoints) → Session Endpoints → Type 0 where
    start : Run host port [] (new_session host port)
    next :
        {actions : List (Action Endpoints)} (a : Action Endpoints) {s t : Session Endpoints}
        → Run host port actions s
        → Step s a t
        → Run host port (a ∷ actions) t
