-- ===== src/World.antt =====
-- The state that a run of flows changes.
use cliot.Prelude.{ℕ, ◌++◌, String, List, [], ◌∷◌}
use cliot.Exec.{Exec, modify}
use cliot.Reporting.Events.{Event, SimpleEvent, ResponseEvent, simple, response}
use cliot.Util.AsyncQueue.{AsyncQueue}

-- `store` is the flow's store (store_t), `events` what went through ReportEngine::record, `pool` the
-- available_pool_ of AsyncConnectionPool with the sessions numbered in their order of creation,
-- `writes` the texts that WebSocketSession::write was called with, each after the number of its
-- session, and `clock` counts the exchanges with the network.
pub record World (Json : Type 0) : Type 0 where
  pub store : Json
  pub events : List (Event Json)
  pub pool : AsyncQueue ℕ
  pub writes : List (ℕ × String)
  pub clock : ℕ

module _ {Json : Type 0} where
  abbrev pub with_store : World Json → Json → World Json
  with_store w store = record w { store = store }

  abbrev pub with_event : World Json → Event Json → World Json
  with_event w ev = record w { events = w.events ++ ev ∷ [] }

  -- reporting.get().record(ev), of the engine that the runner and the steps share.
  abbrev pub record_event : Event Json → Exec (World Json) (Unit {0})
  record_event ev = modify (λ w. with_event w ev)

  abbrev pub record_simple : String → String → Exec (World Json) (Unit {0})
  record_simple label message = record_event (simple (record { label = label; message = message }))

-- A property of the state that what steps do to the store, to the clock and to the reports cannot
-- break: only connections, the reports of requests and the scheduler's own reports can.
pub record Frame {Json : Type 0} (I : World Json → Type 0) : Type 0 where
  pub on_store : (w : World Json) (s : Json) → I w → I (record w { store = s })
  pub on_clock : (w : World Json) (n : ℕ) → I w → I (record w { clock = n })
  pub on_simple : (w : World Json) (ev : SimpleEvent) → I w → I (with_event w (simple ev))
  pub on_response : (w : World Json) (ev : ResponseEvent) → I w → I (with_event w (response ev))
