-- ===== src/Web/Session/Handlers.antt =====
-- The handlers of a session and its progress (src/web/web_socket_session.cpp).
use cliot.Prelude.{
  String, ◌+++◌, ◌≡◌, refl, ap, ◌∙◌, sym, false, List, [], ◌∷◌, ◌++◌, Option, none, some,
}
use cliot.Web.Session.{
  Operation, resolve, connect_to, handshake, Session, on_resolve, on_connect, on_handshake,
  resolve_done, connect_done, handshake_done, without,
}
use cliot.Web.Session.Progress.{
  Progress, broken, advance, is_open, host_of, chain, chain_of, has_write, Agrees, chain-append,
  has_write-append, has_write-others, taken, resolving_of, connecting_of, handshaking_of, still,
}

module _ {Endpoints : Type 0} (host port : String) (p : Progress Endpoints) (s : Session Endpoints)
    (h : Agrees host port p s) where
  pending_taken :
      (before : List (Operation Endpoints)) (op : Operation Endpoints)
      (after : List (Operation Endpoints))
      → chain (op ∷ after) ≡ op ∷ chain after
      → s.pending ≡ before ++ op ∷ after
      → (chain (before ++ after) ≡ []) × (chain_of host port p ≡ op ∷ [])
  pending_taken before op after linked e =
      let joined : chain before ++ op ∷ chain after ≡ chain_of host port p =
        ap (chain before ++◌) (sym linked)
        ∙ sym (chain-append before (op ∷ after))
        ∙ ap chain (sym e)
        ∙ h.chained in
      let (none_left, here) = taken host port p (chain before) (chain after) op joined in
      (chain-append before after ∙ none_left, here)

  quiet :
      (before : List (Operation Endpoints)) (op : Operation Endpoints)
      (after : List (Operation Endpoints))
      → is_open p ≡ false
      → s.pending ≡ before ++ op ∷ after
      → has_write (before ++ after) ≡ false
  quiet before op after shut e =
      has_write-others before op after (ap has_write (sym e) ∙ h.silent shut)

  pub on_resolve-Agrees :
      (before after : List (Operation Endpoints)) (ec : Option String) (results : Endpoints)
      (a b : String)
      → s.pending ≡ before ++ resolve a b ∷ after
      → Agrees host port
          (advance (resolve_done ec results) p)
          (on_resolve ec results (without s (before ++ after)))
  unfolding on_resolve
  on_resolve-Agrees before after (some ec) results a b e =
      let (rest, op) = pending_taken before _ after refl e in
      let is = resolving_of host port a b p op in
      still host port p (broken none) s (before ++ after) h (ap is_open is) refl
        (ap (host_of host) is) rest (quiet before _ after (ap is_open is) e)
  on_resolve-Agrees before after none results a b e =
      let (rest, op) = pending_taken before _ after refl e in
      let is = resolving_of host port a b p op in
      let hushed = quiet before _ after (ap is_open is) e in
      record {
        connection = h.connection ∙ ap is_open is;
        named = h.named ∙ ap (host_of host) is;
        chained = chain-append (before ++ after) _ ∙ ap (◌++ connect_to results ∷ []) rest;
        silent = λ _. has_write-append (before ++ after) _ hushed refl;
        awake = λ q. cc;
      }

  pub on_connect-Agrees :
      (before after : List (Operation Endpoints)) (ec : Option String) (ep_port : String)
      (results : Endpoints)
      → s.pending ≡ before ++ connect_to results ∷ after
      → Agrees host port
          (advance (connect_done ec ep_port) p)
          (on_connect ec ep_port (without s (before ++ after)))
  unfolding on_connect
  on_connect-Agrees before after (some ec) ep_port results e =
      let (rest, op) = pending_taken before _ after refl e in
      let is = connecting_of host port results p op in
      still host port p (broken none) s (before ++ after) h (ap is_open is) refl
        (ap (host_of host) is) rest (quiet before _ after (ap is_open is) e)
  on_connect-Agrees before after none ep_port results e =
      let (rest, op) = pending_taken before _ after refl e in
      let is = connecting_of host port results p op in
      let hushed = quiet before _ after (ap is_open is) e in
      let same = h.named ∙ ap (host_of host) is in
      record {
        connection = h.connection ∙ ap is_open is;
        named = ap (λ n. n +++ (":" +++ ep_port)) same;
        chained =
            chain-append (before ++ after) _
            ∙ ap (◌++ handshake (s.host +++ (":" +++ ep_port)) "/" ∷ []) rest
            ∙ ap (λ n. handshake (n +++ (":" +++ ep_port)) "/" ∷ []) same;
        silent = λ _. has_write-append (before ++ after) _ hushed refl;
        awake = λ q. cc;
      }

  pub on_handshake-Agrees :
      (before after : List (Operation Endpoints)) (ec : Option String) (a target : String)
      → s.pending ≡ before ++ handshake a target ∷ after
      → Agrees host port
          (advance (handshake_done ec) p)
          (on_handshake ec (without s (before ++ after)))
  unfolding on_handshake
  on_handshake-Agrees before after (some ec) a target e =
      let (rest, op) = pending_taken before _ after refl e in
      let (ep_port, is) = handshaking_of host port a target p op in
      rw is (
        still host port p (broken (some ep_port)) s (before ++ after) h (ap is_open is) refl
          (ap (host_of host) is) rest (quiet before _ after (ap is_open is) e))
  on_handshake-Agrees before after none a target e =
      let (rest, op) = pending_taken before _ after refl e in
      let (ep_port, is) = handshaking_of host port a target p op in
      rw is (record {
        connection = refl;
        named = h.named ∙ ap (host_of host) is;
        chained = rest;
        silent = λ q. cc;
        awake = λ _. refl;
      })
