-- ===== src/Runner/Flows/Turns.antt =====
-- The sessions take turns (src/runner.hpp: "round robin ws on each new request"): the line in which they
-- stand, and what taking, using and giving back a session does to it.
pub mod Flows
use cliot.Prelude.{
  ℕ, zero, suc, ◌+◌, ◌≤◌, ◌≡◌, refl, ap, ◌∙◌, sym, subst, Bool, false, List, [], ◌∷◌, ◌++◌, Option,
  none, some, String, All, arith, length, length-append, append_assoc, append-nil, inl, inr, map,
  Bool-cases,
}
use cliot.Json.{value}
use cliot.Exec.{Exec, Exn, Halt, waits, json as json_exn, pure, catch, ◌>>=◌, ◌>>◌}
use cliot.Exec.Triple.{
  Triple, Triple-pure, Triple-throw, Triple-bind, Triple-catch, Triple-checked, Triple-if,
}
use cliot.Host.{Host}
use cliot.World.{World, Frame}
use cliot.Flow.Descriptors.{Steps}
use cliot.Runner.Templates.Local.{Local-render_template}
use cliot.Runner.Steps.{perform, perform_body}
use cliot.Runner.Steps.Local.{Stays-of_Local}
use cliot.Runner.Flows.{
  FlowStep, request_step, response_step, run_flow_step, repeat_block_step, load_from, unwinding,
  respond, run_steps, run_loaded, run_flow, run_top,
}
use cliot.Runner.Flows.Framed.{
  script_at, Framed-of_Stays, Framed-respond, Framed-load_steps, Framed-env_json,
}
use cliot.Util.AsyncQueue.{AsyncQueue, dequeue}
use cliot.Util.AsyncQueue.Running.{enqueue_running, dequeue_running}
use cliot.Web.Connections.{
  ensure_connection_established, take_session, borrow, give_back, release, write, request,
}
use cliot.Web.Connections.Held.{held_by}

-- The first of the line, and the line with it at the end.
abbrev front : List ℕ → List ℕ
front [] = []
front (x ∷ xs) = x ∷ []

abbrev turn : List ℕ → List ℕ
turn [] = []
turn (x ∷ xs) = xs ++ x ∷ []

-- The line after `n` turns, and who has had them.
abbrev pub rotate : ℕ → List ℕ → List ℕ
rotate zero line = line
rotate (suc n) line = turn (rotate n line)

abbrev pub served : ℕ → List ℕ → List ℕ
served zero line = []
served (suc n) line = served n line ++ front (rotate n line)

abbrev pub sessions : List (ℕ × String) → List ℕ
sessions [] = []
sessions ((ws, text) ∷ rest) = ws ∷ sessions rest

sessions-append :
    (xs : List (ℕ × String)) (ws : ℕ) (text : String)
    → sessions (xs ++ (ws, text) ∷ []) ≡ sessions xs ++ ws ∷ []
sessions-append [] ws text = refl
sessions-append ((v, t) ∷ xs) ws text = ap (v ∷◌) (sessions-append xs ws text)

-- A step that is no subflow and no block.
abbrev pub IsPlain : FlowStep → Type 0
IsPlain (request_step path) = Unit {0}
IsPlain (response_step path v) = Unit {0}
IsPlain (run_flow_step path) = ⊥
IsPlain (repeat_block_step path repeat steps) = ⊥

-- The pool, with the sessions `held` behind it, is the line after as many turns as texts were written,
-- and these went to the sessions that were served.
pub record InTurn (line held : List ℕ) (pool : AsyncQueue ℕ) (texts : List (ℕ × String))
    : Type 0 where
  pub running : pool.stop_requested ≡ false
  pub roomy : length (pool.q ++ held) ≤ pool.capacity
  pub turns : ℕ
  pub order : pool.q ++ held ≡ rotate turns line
  pub writes : sessions texts ≡ served turns line

-- Session `ws` was taken from the pool and nothing was written to it yet.
pub record Taken (line held : List ℕ) (ws : ℕ) (pool : AsyncQueue ℕ) (texts : List (ℕ × String))
    : Type 0 where
  pub running : pool.stop_requested ≡ false
  pub roomy : suc (length (pool.q ++ held)) ≤ pool.capacity
  pub turns : ℕ
  pub order : ws ∷ (pool.q ++ held) ≡ rotate turns line
  pub writes : sessions texts ≡ served turns line

-- Sending to a session that was taken puts it at the end of the line.
pub InTurn-of_Taken :
    (line held : List ℕ) (ws : ℕ) (pool : AsyncQueue ℕ) (texts : List (ℕ × String)) (text : String)
    → Taken line held ws pool texts
    → InTurn line (held ++ ws ∷ []) pool (texts ++ (ws, text) ∷ [])
InTurn-of_Taken line held ws pool texts text h = record {
  running = h.running;
  roomy = omega (
    arith,
    h.roomy,
    length-append pool.q held,
    length-append held (ws ∷ []),
    length-append pool.q (held ++ ws ∷ []),
  );
  turns = suc h.turns;
  order = sym (append_assoc pool.q held (ws ∷ [])) ∙ ap turn h.order;
  writes =
      sessions-append texts ws text
      ∙ ap (◌++ ws ∷ []) h.writes
      ∙ ap (λ l. served h.turns line ++ front l) h.order;
}

-- The first of the held sessions goes back to the end of the pool.
pub InTurn-back :
    (line held : List ℕ) (ws : ℕ) (pool : AsyncQueue ℕ) (texts : List (ℕ × String))
    → InTurn line (ws ∷ held) pool texts
    → InTurn line held (record pool { q = pool.q ++ ws ∷ [] }) texts
InTurn-back line held ws pool texts h = record {
  running = h.running;
  roomy = omega (arith, h.roomy, ap length (append_assoc pool.q (ws ∷ []) held));
  turns = h.turns;
  order = append_assoc pool.q (ws ∷ []) held ∙ h.order;
  writes = h.writes;
}

pub Taken-first :
    (line held : List ℕ) (ws : ℕ) (rest : List ℕ) (pool : AsyncQueue ℕ) (texts : List (ℕ × String))
    → pool.q ≡ ws ∷ rest
    → InTurn line held pool texts
    → Taken line held ws (record pool { q = rest }) texts
Taken-first line held ws rest pool texts e h = record {
  running = h.running;
  roomy = omega (arith, h.roomy, ap (λ q. length (q ++ held)) e);
  turns = h.turns;
  order = ap (◌++ held) (sym e) ∙ h.order;
  writes = h.writes;
}
