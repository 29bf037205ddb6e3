-- ===== src/Web/Connections/Held.antt =====
-- Which sessions are in the pool and which are held by links (src/web/async_connection_pool.hpp).
use cliot.Prelude.{
  ℕ, suc, ◌+◌, ◌≤◌, ◌≡◌, refl, ap, inl, inr, false, List, [], ◌∷◌, ◌++◌, Option, none, some, arith,
  length, length-append, String, ◌==◌, if◌then◌else◌, Bool-cases,
}
use cliot.Exec.{Exec, Exn, Halt, waits, pure, ◌>>=◌, ◌>>◌}
use cliot.Exec.Triple.{Post, Triple, Triple-pure, Triple-if, Triple-bind}
use cliot.Host.{Host, Arrival, message, read_error, silence}
use cliot.Util.AsyncQueue.{AsyncQueue, dequeue}
use cliot.Util.AsyncQueue.Running.{enqueue_running, dequeue_running}
use cliot.World.{World}
use cliot.Web.Connections.{
  ensure_connection_established, take_session, borrow, give_back, release, write, request, arrived,
  read_one,
}

abbrev pub copies : ℕ → List ℕ → ℕ
copies ws [] = 0
copies ws (head ∷ sessions) = (if head == ws then 1 else 0) + copies ws sessions

copies-append :
    (ws : ℕ) (front back : List ℕ) → copies ws front + copies ws back ≡ copies ws (front ++ back)
copies-append ws [] back = omega arith
copies-append ws (head ∷ front) back = omega (arith, copies-append ws front back)

-- The links that are held and the sessions in the pool are together `n` sessions, session `a` being
-- among them `total a` times.
pub record PoolIs (cap : ℕ) (total : ℕ → ℕ) (n : ℕ) (held : List ℕ) (pool : AsyncQueue ℕ)
    : Type 0 where
  pub running : pool.stop_requested ≡ false
  pub sized : pool.capacity ≡ cap
  pub undeleted : pool.deleted ≡ []
  pub fits : n ≤ cap
  pub counted : (a : ℕ) → copies a held + copies a pool.q ≡ total a
  pub all : length held + length pool.q ≡ n

-- A held link as a list.
abbrev pub held_by : Option ℕ → List ℕ
held_by none = []
held_by (some ws) = ws ∷ []

-- `Bad` follows from each way to wait for ever: a session that never connects, a server that stays
-- silent.
module _ (H : Host) (cap : ℕ) (Bad : Type 0) (unconnected : (ws : ℕ) → H.connects ws ≡ false → Bad)
    (unanswered : (clock ws : ℕ) → H.receive clock ws ≡ silence → Bad) where
  open H use {json}
  open json use {Json}

  abbrev pub OnlyIfBad : Halt → Type 0
  OnlyIfBad h = h ≡ waits → Bad

  module _ (total : ℕ → ℕ) (n : ℕ) where
    abbrev pub Holding : List ℕ → World Json → Type 0
    Holding held w = PoolIs cap total n held w.pool

    -- The pool is the same, whatever else changes.
    abbrev pub Keeps {ℓ} : {A : Type ℓ} → List ℕ → Exec (World Json) A → Type ℓ
    Keeps held m = Triple (Holding held) m (λ _. Holding held) (λ _. Holding held) OnlyIfBad

    Keeps-ensure : (held : List ℕ) (ws : ℕ) → Keeps held (ensure_connection_established H ws)
    unfolding ensure_connection_established
    Keeps-ensure held ws =
        Triple-if (H.connects ws) _ _ (λ _. Triple-pure tt)
          (λ e. record { at = λ w h _. unconnected ws e })

    PoolIs-enqueue :
        (held : List ℕ) (ws : ℕ) (p : AsyncQueue ℕ)
        → PoolIs cap total n (ws ∷ held) p
        → PoolIs cap total n held (record p { q = p.q ++ ws ∷ [] })
    PoolIs-enqueue held ws p h = record {
      running = h.running;
      sized = h.sized;
      undeleted = h.undeleted;
      fits = h.fits;
      counted = λ a. omega (arith, h.counted a, copies-append a p.q (ws ∷ []));
      all = omega (arith, h.all, length-append p.q (ws ∷ []));
    }

    PoolIs-dequeue :
        (held : List ℕ) (ws : ℕ) (rest : List ℕ) (p : AsyncQueue ℕ)
        → p.q ≡ ws ∷ rest
        → PoolIs cap total n held p
        → PoolIs cap total n (ws ∷ held) (record p { q = rest })
    PoolIs-dequeue held ws rest p e h = record {
      running = h.running;
      sized = h.sized;
      undeleted = h.undeleted;
      fits = h.fits;
      counted = λ a. omega (arith, h.counted a, ap (copies a) e);
      all = omega (arith, h.all, ap length e);
    }

    pub give_back-Holding :
        (held : List ℕ) (ws : ℕ) (E : Exn → World Json → Type 0)
        → Triple (Holding (ws ∷ held)) (give_back H ws) (λ _. Holding held) E OnlyIfBad
    unfolding give_back
    give_back-Holding held ws E = record {
      at = λ w h.
          rw
            (enqueue_running w.pool ws h.running (omega (arith, h.all, h.sized, h.fits)), give_back)
            (PoolIs-enqueue held ws w.pool h);
    }

    pub release-Holding :
        (link : Option ℕ) (E : Exn → World Json → Type 0)
        → Triple (Holding (held_by link)) (release H link) (λ _. Holding []) E OnlyIfBad
    unfolding release
    release-Holding none E = Triple-pure tt
    release-Holding (some ws) E = give_back-Holding [] ws E

    take_session-Holding :
        (held : List ℕ)
        → (n ≤ length held → Bad)
        → Triple
            (Holding held)
            (λ w. take_session H (dequeue w.pool) w)
            (λ ws. Holding (ws ∷ held))
            (λ _. Holding held)
            OnlyIfBad
    unfolding take_session
    take_session-Holding held full = record {
      at = λ w h. elim (dequeue_running w.pool h.running) [
        | inl (e, d) ↦ rw (d, take_session) (λ _. full (omega (arith, h.all, ap length e)))
        | inr (ws, rest, e, d) ↦ rw (d, take_session) (PoolIs-dequeue held ws rest w.pool e h)
      ];
    }

    -- An exception after the session was taken would lose it: the constructor throws none.
    connect-Holding :
        (held : List ℕ) (ws : ℕ)
        → Triple
            (Holding (ws ∷ held))
            (ensure_connection_established H ws >> pure ws)
            (λ link. Holding (link ∷ held))
            (λ _. Holding held)
            OnlyIfBad
    unfolding ensure_connection_established ◌>>=◌
    connect-Holding held ws = record {
      at = λ w h. elim (Bool-cases (H.connects ws)) [
        | inl e ↦ rw e h
        | inr e ↦ rw e (λ _. unconnected ws e)
      ];
    }

    -- Borrowing takes one session out of the pool and holds it. It waits for ever only if all
    -- sessions are held.
    pub borrow-Holding :
        (held : List ℕ)
        → (n ≤ length held → Bad)
        → Triple (Holding held) (borrow H) (λ ws. Holding (ws ∷ held)) (λ _. Holding held) OnlyIfBad
    unfolding borrow
    borrow-Holding held full =
        Triple-bind _ _ (take_session-Holding held full) (λ ws. connect-Holding held ws)

    write-Holding :
        (held : List ℕ) (ws : ℕ) (text : String)
        → Triple
            (Holding (ws ∷ held))
            (write H ws text >> pure ws)
            (λ link. Holding (link ∷ held))
            (λ _. Holding held)
            OnlyIfBad
    unfolding write ensure_connection_established ◌>>=◌
    write-Holding held ws text = record {
      at = λ w h. elim (Bool-cases (H.connects ws)) [
        | inl e ↦ rw e h
        | inr e ↦ rw e (λ _. unconnected ws e)
      ];
    }

    pub request-Holding :
        (held : List ℕ) (text : String)
        → (n ≤ length held → Bad)
        → Triple
            (Holding held)
            (request H text)
            (λ ws. Holding (ws ∷ held))
            (λ _. Holding held)
            OnlyIfBad
    unfolding request
    request-Holding held text full =
        Triple-bind _ _ (borrow-Holding held full) (λ ws. write-Holding held ws text)

    pub read_one-Keeps : (held : List ℕ) (ws : ℕ) → Keeps held (read_one H ws)
    unfolding read_one
    read_one-Keeps held ws =
        Triple-bind _ _ (Keeps-ensure held ws)
          (λ _. record { at = λ w h. arrives w h (H.receive w.clock ws) refl })
      where
        arrives :
            (w : World Json)
            → Holding held w
            → (a : Arrival) → H.receive w.clock ws ≡ a
            → Post
                (λ _. Holding held)
                (λ _. Holding held)
                OnlyIfBad
                (arrived H (H.receive w.clock ws) (record w { clock = suc w.clock })).0
                (arrived H (H.receive w.clock ws) (record w { clock = suc w.clock })).1
        arrives w h (message text) e = rw (e, arrived) h
        arrives w h (read_error m) e = rw (e, arrived) h
        arrives w h silence e = rw (e, arrived) (λ _. unanswered w.clock ws e)
