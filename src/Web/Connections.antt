-- ===== src/Web/Connections.antt =====
-- Borrowed connections, as a flow uses them: AsyncConnectionPool::borrow and its ConnectionLink
-- (src/web/async_connection_pool.{hpp,cpp}), ConnectionManager::request
-- (src/web/connection_manager.hpp), WebSocketSession::write and read_one
-- (src/web/web_socket_session.cpp). A link is the number of its session.
pub mod Held
use cliot.Prelude.{
  ℕ, zero, suc, ◌+◌, ◌++◌, ◌≡◌, refl, String, Bool, true, false, List, [], ◌∷◌, Option, none, some,
  if◌then◌else◌,
}
use cliot.Exec.{
  Exec, Exn, other, waits, pure, throw, halt, modify, ◌>>=◌, ◌>>◌, Outcome, returns, throws, halts,
}
use cliot.Host.{Host, Arrival, message, read_error, silence}
use cliot.Util.AsyncQueue.{AsyncQueue, make, enqueue, dequeue, stop}
use cliot.World.{World}

-- The loop of the constructor, `enqueue` of a new session each time. On a full queue it would wait
-- for ever; `make_pool_lem` shows that it never meets one.
unfoldable pub add_sessions : ℕ → ℕ → AsyncQueue ℕ → AsyncQueue ℕ
unfolding enqueue
add_sessions zero i q = q
add_sessions (suc left) i q =
    add_sessions left (suc i) (elim (enqueue q i) [ none ↦ q | some q' ↦ q' ])

unfoldable pub make_pool : AsyncQueue ℕ
unfolding add_sessions make
make_pool = add_sessions 4 0 (make 4)

pub make_pool_lem :
    make_pool
    ≡ record { capacity = 4; q = 0 ∷ 1 ∷ 2 ∷ 3 ∷ []; stop_requested = false; deleted = [] }
unfolding make_pool
make_pool_lem = refl

module _ (H : Host) where
  open H use {json, connects, receive}
  open json use {Json}

  -- ConnectionLink's constructor waits until the session is connected.
  unfoldable pub ensure_connection_established : ℕ → Exec (World Json) (Unit {0})
  ensure_connection_established ws = if connects ws then pure tt else halt waits

  unfoldable pub take_session : Option (Option ℕ × AsyncQueue ℕ) → Exec (World Json) ℕ
  take_session none w = (halts waits, w)
  take_session (some (none, q)) w =
      (throws (other "Could not borrow ws connection"), record w { pool = q })
  take_session (some (some ws, q)) w = (returns ws, record w { pool = q })

  -- The constructor of ConnectionLink.
  abbrev pub connection_link : ℕ → Exec (World Json) ℕ
  connection_link ws = ensure_connection_established ws >> pure ws

  unfoldable pub borrow : Exec (World Json) ℕ
  unfolding take_session ensure_connection_established
  borrow = do ws ← λ w. take_session (dequeue w.pool) w; connection_link ws

  -- ~ConnectionLink: the cleanup enqueues the session again.
  unfoldable pub give_back : ℕ → Exec (World Json) (Unit {0})
  give_back ws w = elim (enqueue w.pool ws) [
    | none ↦ (halts waits, w)
    | some q ↦ (returns tt, record w { pool = q })
  ]

  -- The part of ~AsyncConnectionPool that changes the queue: the deleter closes each session.
  unfoldable pub close_pool : Exec (World Json) (Unit {0})
  close_pool = modify (λ w. record w { pool = stop w.pool })

  -- What happens to a shared_ptr<ConnectionLink> that goes out of scope or is assigned anew.
  unfoldable pub release : Option ℕ → Exec (World Json) (Unit {0})
  unfolding give_back
  release none = pure tt
  release (some ws) = give_back ws

  -- WebSocketSession::write waits for the connection and starts an asynchronous write of the text. When
  -- that ends, and what it finds of the text then, is left open.
  unfoldable pub write : ℕ → String → Exec (World Json) (Unit {0})
  unfolding ensure_connection_established
  write ws text = do
    ensure_connection_established ws
    modify (λ w. record w { writes = w.writes ++ (ws, text) ∷ [] })

  -- ConnectionLink::write
  abbrev pub link_write : ℕ → String → Exec (World Json) (Unit {0})
  link_write ws text = write ws text

  unfoldable pub request : String → Exec (World Json) ℕ
  unfolding borrow write
  request text = do link ← borrow; link_write link text; pure link

  unfoldable pub arrived : Arrival → Exec (World Json) String
  arrived (message text) = pure text
  arrived (read_error m) = throw (other m)
  arrived silence = halt waits

  unfoldable pub read_one : ℕ → Exec (World Json) String
  unfolding ensure_connection_established arrived
  read_one ws = do
    ensure_connection_established ws
    λ w. arrived (receive w.clock ws) (record w { clock = suc w.clock })

  -- ConnectionLink::read_one
  abbrev pub link_read_one : ℕ → Exec (World Json) String
  link_read_one ws = read_one ws
