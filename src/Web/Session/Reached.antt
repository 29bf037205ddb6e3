-- ===== src/Web/Session/Reached.antt =====
-- The reachable sessions and their progress (src/web/web_socket_session.cpp).
use cliot.Prelude.{
  ℕ, String, ◌≡◌, refl, ap, ◌∙◌, sym, Bool, true, false, List, [], ◌∷◌, ◌++◌, Option, none, some,
  if◌then◌else◌, append-nil,
}
use cliot.Web.Session.{
  Operation, write, close, Session, new_session, on_write, on_close, wait_connected, async_write,
  async_close, Action, without, Step, resolved, connected, shaken, written, closed, waiting,
  writing, closing, Run, start, next,
}
use cliot.Web.Session.Progress.{
  Progress, resolving, advance, progress, chain, has_write, Agrees, chain-append, has_write-append,
  has_write-others,
}
use cliot.Web.Session.Handlers.{on_resolve-Agrees, on_connect-Agrees, on_handshake-Agrees}

module _ {Endpoints : Type 0} (host port : String) (p : Progress Endpoints) (s : Session Endpoints)
    (h : Agrees host port p s) where
  -- An operation that is not of the chain is done.
  aside-Agrees :
      (before : List (Operation Endpoints)) (op : Operation Endpoints)
      (after : List (Operation Endpoints))
      → chain (op ∷ after) ≡ chain after
      → s.pending ≡ before ++ op ∷ after
      → Agrees host port p (without s (before ++ after))
  aside-Agrees before op after aside e = record {
    connection = h.connection;
    named = h.named;
    chained =
        chain-append before after
        ∙ ap (chain before ++◌) (sym aside)
        ∙ sym (chain-append before (op ∷ after))
        ∙ ap chain (sym e)
        ∙ h.chained;
    silent = λ q. has_write-others before op after (ap has_write (sym e) ∙ h.silent q);
    awake = h.awake;
  }

  on_write-Agrees :
      (ec : Option String) (rest : List (Operation Endpoints))
      → Agrees host port p (without s rest)
      → Agrees host port p (on_write ec (without s rest))
  unfolding on_write
  on_write-Agrees none rest k = k
  on_write-Agrees (some ec) rest k = k

  on_close-Agrees :
      (ec : Option String) (rest : List (Operation Endpoints))
      → Agrees host port p (without s rest)
      → Agrees host port p (on_close ec (without s rest))
  unfolding on_close
  on_close-Agrees none rest k = k
  on_close-Agrees (some ec) rest k = k

  asleep-Agrees :
      (thread : ℕ) (b : Bool)
      → s.is_connected ≡ b
      → Agrees host port p (if b then s else record s { sleeping = thread ∷ s.sleeping })
  asleep-Agrees thread true e = h
  asleep-Agrees thread false e = record {
    connection = h.connection;
    named = h.named;
    chained = h.chained;
    silent = h.silent;
    awake = λ q. cc (e, h.connection, q);
  }

  wait_connected-Agrees : (thread : ℕ) → Agrees host port p (wait_connected thread s)
  unfolding wait_connected
  wait_connected-Agrees thread = asleep-Agrees thread s.is_connected refl

  async_write-Agrees :
      (text : String) → s.is_connected ≡ true → Agrees host port p (async_write text s)
  unfolding async_write
  async_write-Agrees text c = record {
    connection = h.connection;
    named = h.named;
    chained = chain-append s.pending (write text ∷ []) ∙ append-nil _ ∙ h.chained;
    silent = λ q. cc (c, h.connection, q);
    awake = h.awake;
  }

  async_close-Agrees : Agrees host port p (async_close s)
  unfolding async_close
  async_close-Agrees = record {
    connection = h.connection;
    named = h.named;
    chained = chain-append s.pending (close ∷ []) ∙ append-nil _ ∙ h.chained;
    silent = λ q. has_write-append s.pending (close ∷ []) (h.silent q) refl;
    awake = h.awake;
  }

  Step-Agrees :
      (a : Action Endpoints) (t : Session Endpoints) → Step s a t → Agrees host port (advance a p) t
  Step-Agrees a t (resolved x y before after ec results e ea et) =
      rw (ea, et) (on_resolve-Agrees host port p s h before after ec results x y e)
  Step-Agrees a t (connected results before after ec ep_port e ea et) =
      rw (ea, et) (on_connect-Agrees host port p s h before after ec ep_port results e)
  Step-Agrees a t (shaken x target before after ec e ea et) =
      rw (ea, et) (on_handshake-Agrees host port p s h before after ec x target e)
  Step-Agrees a t (written text before after ec e ea et) =
      rw (ea, et) (on_write-Agrees ec _ (aside-Agrees before (write text) after refl e))
  Step-Agrees a t (closed before after ec e ea et) =
      rw (ea, et) (on_close-Agrees ec _ (aside-Agrees before close after refl e))
  Step-Agrees a t (waiting thread ea et) = rw (ea, et) (wait_connected-Agrees thread)
  Step-Agrees a t (writing text c ea et) = rw (ea, et) (async_write-Agrees text c)
  Step-Agrees a t (closing ea et) = rw (ea, et) async_close-Agrees

module _ {Endpoints : Type 0} (host port : String) where
  new_session-Agrees : Agrees {Endpoints = Endpoints} host port resolving (new_session host port)
  unfolding new_session
  new_session-Agrees = record {
    connection = refl;
    named = refl;
    chained = refl;
    silent = λ _. refl;
    awake = λ _. refl;
  }

  -- In every reachable session, whatever the order in which operations complete and threads call: it is
  -- connected exactly if resolving, connecting and the handshake have succeeded, one after the other,
  -- and then no thread sleeps; the host is the configured one, with the port of the endpoint behind it
  -- once from the moment of connecting; of the chain the one next operation is pending, or none after an
  -- error; and no text is being written before the session is connected.
  pub Run-Agrees :
      (actions : List (Action Endpoints)) (s : Session Endpoints)
      → Run host port actions s
      → Agrees host port (progress actions) s
  Run-Agrees actions s start = new_session-Agrees
  Run-Agrees actions s (next {actions = earlier} a {s = before} run step) =
      Step-Agrees host port (progress earlier) before (Run-Agrees earlier before run) a s step
