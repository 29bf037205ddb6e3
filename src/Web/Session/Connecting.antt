-- ===== src/Web/Session/Connecting.antt =====
-- How a session gets connected (src/web/web_socket_session.cpp).
use cliot.Prelude.{
  String, ◌≡◌, refl, ap, ◌∙◌, true, List, [], ◌∷◌, ◌++◌, Option, none, ◌≢◌, ◌≤◌, length, arith,
}
use cliot.Web.Session.{
  Operation, resolve, connect_to, handshake, write, close, Session, Action, resolve_done,
  connect_done, handshake_done, resolved, connected, shaken, Run, next,
}
use cliot.Web.Session.Progress.{
  Progress, resolving, connecting, handshaking, opened, broken, advance, progress, is_open, chain,
  chain_of,
}
use cliot.Web.Session.Reached.{Run-Agrees}

module _ {Endpoints : Type 0} where
  -- An operation of the chain that is pending stands somewhere in the list.
  found :
      (ops : List (Operation Endpoints)) (op : Operation Endpoints)
      (rest : List (Operation Endpoints))
      → chain ops ≡ op ∷ rest
      → (before : List (Operation Endpoints)) × (after : List (Operation Endpoints)) × (ops
          ≡ before ++ op ∷ after)
  found [] op rest e = cc
  found (resolve a b ∷ ops) op rest e = ([], ops, cc)
  found (connect_to r ∷ ops) op rest e = ([], ops, cc)
  found (handshake a b ∷ ops) op rest e = ([], ops, cc)
  found (write text ∷ ops) op rest e =
      let (before, after, h) = found ops op rest e in
      (write text ∷ before, after, ap (write text ∷◌) h)
  found (close ∷ ops) op rest e =
      let (before, after, h) = found ops op rest e in (close ∷ before, after, ap (close ∷◌) h)

module _ {Endpoints : Type 0} (host port : String) where
  -- These further actions, the latest first, are possible and lead to a connected session.
  abbrev pub Connects : List (Action Endpoints) → List (Action Endpoints) → Type 0
  Connects more actions =
      (t : Session Endpoints) × Run host port (more ++ actions) t × (t.is_connected ≡ true)

  from_handshaking :
      (actions : List (Action Endpoints)) (s : Session Endpoints) (ep_port : String)
      → progress actions ≡ handshaking ep_port
      → Run host port actions s
      → Connects (handshake_done none ∷ []) actions
  from_handshaking actions s ep_port e run =
      let h = Run-Agrees host port actions s run in
      let (before, after, at) = found s.pending _ [] (h.chained ∙ ap (chain_of host port) e) in
      let more = next (handshake_done none) run (shaken _ _ before after none at refl refl) in
      (
        _,
        more,
        (Run-Agrees host port _ _ more).connection
            ∙ ap (λ p. is_open (advance (handshake_done none) p)) e,
      )

  from_connecting :
      (actions : List (Action Endpoints)) (s : Session Endpoints) (results : Endpoints)
      (ep_port : String)
      → progress actions ≡ connecting results
      → Run host port actions s
      → Connects (handshake_done none ∷ connect_done none ep_port ∷ []) actions
  from_connecting actions s results ep_port e run =
      let h = Run-Agrees host port actions s run in
      let (before, after, at) = found s.pending _ [] (h.chained ∙ ap (chain_of host port) e) in
      from_handshaking (connect_done none ep_port ∷ actions) _ ep_port refl (
        next (connect_done none ep_port) run
          (connected results before after none ep_port at refl refl))

  from_resolving :
      (actions : List (Action Endpoints)) (s : Session Endpoints) (results : Endpoints)
      (ep_port : String)
      → progress actions ≡ resolving
      → Run host port actions s
      → Connects
          (handshake_done none ∷ connect_done none ep_port ∷ resolve_done none results ∷ [])
          actions
  from_resolving actions s results ep_port e run =
      let h = Run-Agrees host port actions s run in
      let (before, after, at) = found s.pending _ [] (h.chained ∙ ap (chain_of host port) e) in
      from_connecting (resolve_done none results ∷ actions) _ results ep_port refl (
        next (resolve_done none results) run
          (resolved host port before after none results at refl refl))

  -- A session in which no connecting operation has failed so far is connected, or becomes connected when
  -- the operations of its chain that are left, three at most, succeed one after another: each is pending
  -- when its turn comes.
  pub Run-Connects :
      (actions : List (Action Endpoints)) (s : Session Endpoints) (results : Endpoints)
      (ep_port : String)
      → Run host port actions s
      → ((suffix : Option String) → progress actions ≢ broken suffix)
      → (more : List (Action Endpoints)) × (length more ≤ 3) × Connects more actions
  Run-Connects actions s results ep_port run unbroken = by_progress (progress actions) refl
    where
      by_progress :
          (p : Progress Endpoints)
          → progress actions ≡ p
          → (more : List (Action Endpoints)) × (length more ≤ 3) × Connects more actions
      by_progress resolving e = (
        handshake_done none ∷ connect_done none ep_port ∷ resolve_done none results ∷ [],
        omega arith,
        from_resolving actions s results ep_port e run,
      )
      by_progress (connecting r) e = (
        handshake_done none ∷ connect_done none ep_port ∷ [],
        omega arith,
        from_connecting actions s r ep_port e run,
      )
      by_progress (handshaking q) e =
          (handshake_done none ∷ [], omega arith, from_handshaking actions s q e run)
      by_progress (opened q) e = (
        [],
        omega arith,
        (s, run, (Run-Agrees host port actions s run).connection ∙ ap is_open e),
      )
      by_progress (broken suffix) e = absurd (unbroken suffix e)
