-- ===== src/Web/Session/Progress.antt =====
-- How far a session has come, told from what happened alone (src/web/web_socket_session.cpp).
use cliot.Prelude.{
  String, ◌+++◌, ◌≡◌, ◌≢◌, refl, ap, ◌∙◌, sym, Bool, true, false, List, [], ◌∷◌, ◌++◌, Option, none,
  some,
}
use cliot.Web.Session.{
  Operation, resolve, connect_to, handshake, write, close, Session, Action, resolve_done,
  connect_done, handshake_done, without,
}

-- `broken` keeps the port that the host has got, if any.
pub data Progress (Endpoints : Type 0) : Type 0 where
  resolving : Progress Endpoints
  connecting : Endpoints → Progress Endpoints
  handshaking opened : String → Progress Endpoints
  broken : Option String → Progress Endpoints

alone {ℓ} :
    {A : Type ℓ} (before after : List A) (x y : A)
    → before ++ x ∷ after ≡ y ∷ []
    → (before ++ after ≡ []) × (x ≡ y)
alone [] [] x y h = (refl, cc)
alone [] (z ∷ after) x y h = cc
alone (z ∷ []) after x y h = cc
alone (z ∷ u ∷ before) after x y h = cc

none_in {ℓ} : {A : Type ℓ} (before after : List A) (x : A) → before ++ x ∷ after ≢ []
none_in [] after x h = cc
none_in (z ∷ before) after x h = cc

module _ {Endpoints : Type 0} where
  abbrev pub advance : Action Endpoints → Progress Endpoints → Progress Endpoints
  advance (resolve_done none results) p = connecting results
  advance (resolve_done (some ec) results) p = broken none
  advance (connect_done none ep_port) p = handshaking ep_port
  advance (connect_done (some ec) ep_port) p = broken none
  advance (handshake_done none) (handshaking ep_port) = opened ep_port
  advance (handshake_done (some ec)) (handshaking ep_port) = broken (some ep_port)
  advance a p = p

  abbrev pub progress : List (Action Endpoints) → Progress Endpoints
  progress [] = resolving
  progress (a ∷ earlier) = advance a (progress earlier)

  abbrev pub is_open : Progress Endpoints → Bool
  is_open (opened ep_port) = true
  is_open p = false

  abbrev pub host_of : String → Progress Endpoints → String
  host_of host (handshaking ep_port) = host +++ (":" +++ ep_port)
  host_of host (opened ep_port) = host +++ (":" +++ ep_port)
  host_of host (broken (some ep_port)) = host +++ (":" +++ ep_port)
  host_of host p = host

  -- The pending operations that belong to connecting.
  abbrev pub chain : List (Operation Endpoints) → List (Operation Endpoints)
  chain [] = []
  chain (write text ∷ ops) = chain ops
  chain (close ∷ ops) = chain ops
  chain (op ∷ ops) = op ∷ chain ops

  abbrev pub chain_of : String → String → Progress Endpoints → List (Operation Endpoints)
  chain_of host port resolving = resolve host port ∷ []
  chain_of host port (connecting results) = connect_to results ∷ []
  chain_of host port (handshaking ep_port) = handshake (host +++ (":" +++ ep_port)) "/" ∷ []
  chain_of host port p = []

  abbrev pub has_write : List (Operation Endpoints) → Bool
  has_write [] = false
  has_write (write text ∷ ops) = true
  has_write (op ∷ ops) = has_write ops

  -- A session that has come as far as `p`.
  pub record Agrees (host port : String) (p : Progress Endpoints) (s : Session Endpoints)
      : Type 0 where
    pub connection : s.is_connected ≡ is_open p
    pub named : s.host ≡ host_of host p
    pub chained : chain s.pending ≡ chain_of host port p
    pub silent : is_open p ≡ false → has_write s.pending ≡ false
    pub awake : is_open p ≡ true → s.sleeping ≡ []

  pub chain-append :
      (before after : List (Operation Endpoints))
      → chain (before ++ after) ≡ chain before ++ chain after
  chain-append [] after = refl
  chain-append (resolve host port ∷ ops) after = ap (resolve host port ∷◌) (chain-append ops after)
  chain-append (connect_to results ∷ ops) after =
      ap (connect_to results ∷◌) (chain-append ops after)
  chain-append (handshake host target ∷ ops) after =
      ap (handshake host target ∷◌) (chain-append ops after)
  chain-append (write text ∷ ops) after = chain-append ops after
  chain-append (close ∷ ops) after = chain-append ops after

  pub has_write-append :
      (before after : List (Operation Endpoints))
      → has_write before ≡ false
      → has_write after ≡ false
      → has_write (before ++ after) ≡ false
  has_write-append [] after b a = a
  has_write-append (resolve host port ∷ ops) after b a = has_write-append ops after b a
  has_write-append (connect_to results ∷ ops) after b a = has_write-append ops after b a
  has_write-append (handshake host target ∷ ops) after b a = has_write-append ops after b a
  has_write-append (write text ∷ ops) after b a = cc
  has_write-append (close ∷ ops) after b a = has_write-append ops after b a

  -- Without one operation there are no more writes than before.
  pub has_write-others :
      (before : List (Operation Endpoints)) (op : Operation Endpoints)
      (after : List (Operation Endpoints))
      → has_write (before ++ op ∷ after) ≡ false
      → has_write (before ++ after) ≡ false
  has_write-others [] (resolve host port) after h = h
  has_write-others [] (connect_to results) after h = h
  has_write-others [] (handshake host target) after h = h
  has_write-others [] (write text) after h = cc
  has_write-others [] close after h = h
  has_write-others (resolve host port ∷ ops) op after h = has_write-others ops op after h
  has_write-others (connect_to results ∷ ops) op after h = has_write-others ops op after h
  has_write-others (handshake host target ∷ ops) op after h = has_write-others ops op after h
  has_write-others (write text ∷ ops) op after h = cc
  has_write-others (close ∷ ops) op after h = has_write-others ops op after h

  -- Whose operation is pending, and nothing else of the chain is.
  pub taken :
      (host port : String) (p : Progress Endpoints) (before after : List (Operation Endpoints))
      (op : Operation Endpoints)
      → before ++ op ∷ after ≡ chain_of host port p
      → (before ++ after ≡ []) × (chain_of host port p ≡ op ∷ [])
  taken host port resolving before after op h =
      let (e, f) = alone before after _ _ h in (e, ap (◌∷ []) (sym f))
  taken host port (connecting results) before after op h =
      let (e, f) = alone before after _ _ h in (e, ap (◌∷ []) (sym f))
  taken host port (handshaking ep_port) before after op h =
      let (e, f) = alone before after _ _ h in (e, ap (◌∷ []) (sym f))
  taken host port (opened ep_port) before after op h = absurd (none_in before after op h)
  taken host port (broken ep_port) before after op h = absurd (none_in before after op h)

  -- Which operation is pending tells how far the session is.
  pub resolving_of :
      (host port h q : String) (p : Progress Endpoints)
      → chain_of host port p ≡ resolve h q ∷ []
      → p ≡ resolving
  resolving_of host port h q resolving e = refl
  resolving_of host port h q (connecting results) e = cc
  resolving_of host port h q (handshaking ep_port) e = cc
  resolving_of host port h q (opened ep_port) e = cc
  resolving_of host port h q (broken ep_port) e = cc

  pub connecting_of :
      (host port : String) (results : Endpoints) (p : Progress Endpoints)
      → chain_of host port p ≡ connect_to results ∷ []
      → p ≡ connecting results
  connecting_of host port results resolving e = cc
  connecting_of host port results (connecting r) e = cc
  connecting_of host port results (handshaking ep_port) e = cc
  connecting_of host port results (opened ep_port) e = cc
  connecting_of host port results (broken ep_port) e = cc

  pub handshaking_of :
      (host port h target : String) (p : Progress Endpoints)
      → chain_of host port p ≡ handshake h target ∷ []
      → (ep_port : String) × (p ≡ handshaking ep_port)
  handshaking_of host port h target resolving e = cc
  handshaking_of host port h target (connecting r) e = cc
  handshaking_of host port h target (handshaking ep_port) e = (ep_port, refl)
  handshaking_of host port h target (opened ep_port) e = cc
  handshaking_of host port h target (broken ep_port) e = cc

  -- A session whose chain stands still: nothing of it is pending, and it is not connected.
  pub still :
      (host port : String) (p q : Progress Endpoints) (s : Session Endpoints)
      (rest : List (Operation Endpoints))
      → Agrees host port p s
      → is_open p ≡ false
      → is_open q ≡ false
      → host_of host p ≡ host_of host q
      → chain rest ≡ chain_of host port q
      → has_write rest ≡ false
      → Agrees host port q (without s rest)
  still host port p q s rest h closed_p closed_q same chained quiet = record {
    connection = h.connection ∙ closed_p ∙ sym closed_q;
    named = h.named ∙ same;
    chained = chained;
    silent = λ _. quiet;
    awake = λ e. cc;
  }
