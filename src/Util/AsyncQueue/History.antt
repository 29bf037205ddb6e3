-- ===== src/Util/AsyncQueue/History.antt =====
-- What the completed calls of an AsyncQueue (src/util/async_queue.hpp) do to its elements, whatever
-- threads make them and in whatever order.
use cliot.Prelude.{
  ℕ, ◌≤◌, ◌<◌, ◌≡◌, refl, sym, ap, ◌∙◌, true, false, List, [], ◌∷◌, ◌++◌, Option, none, some, arith,
  length, length-append, append_assoc, append-nil,
}
use cliot.Util.AsyncQueue.{AsyncQueue, make, enqueue, drain, stop, dequeue}

-- A completed call, with its result.
pub data Op {ℓ} (A : Type ℓ) : Type ℓ where
  enqueues : A → Op A
  dequeues : Option A → Op A
  stops : Op A

module _ {ℓ} {A : Type ℓ} where
  pub data Step (s t : AsyncQueue A) : Op A → Type ℓ where
    enqueued : (x : A) → enqueue s x ≡ some t → Step s t (enqueues x)
    dequeued : (r : Option A) → dequeue s ≡ some (r, t) → Step s t (dequeues r)
    stopped : t ≡ stop s → Step s t stops

  -- A sequence of completed calls.
  pub data Run : AsyncQueue A → List (Op A) → AsyncQueue A → Type ℓ where
    here : {s : AsyncQueue A} → Run s [] s
    next :
        {s t u : AsyncQueue A} {op : Op A} {ops : List (Op A)}
        → Step s t op
        → Run t ops u
        → Run s (op ∷ ops) u

  -- The elements that were enqueued before the first stop.
  abbrev pub accepted : List (Op A) → List A
  accepted [] = []
  accepted (enqueues x ∷ ops) = x ∷ accepted ops
  accepted (dequeues r ∷ ops) = accepted ops
  accepted (stops ∷ ops) = []

  -- The elements that dequeue returned.
  abbrev pub taken : List (Op A) → List A
  taken [] = []
  taken (enqueues x ∷ ops) = taken ops
  taken (dequeues none ∷ ops) = taken ops
  taken (dequeues (some x) ∷ ops) = x ∷ taken ops
  taken (stops ∷ ops) = taken ops

  pub drain-append : (q deleted : List A) → drain q deleted ≡ deleted ++ q
  unfolding drain
  drain-append [] deleted = sym (append-nil deleted)
  drain-append (x ∷ q) deleted =
      drain-append q (deleted ++ x ∷ []) ∙ append_assoc deleted (x ∷ []) q

  -- What a stopped queue is.
  pub record IsStopped (s : AsyncQueue A) (deleted : List A) : Type ℓ where
    pub requested : s.stop_requested ≡ true
    pub emptied : s.q ≡ []
    pub kept : s.deleted ≡ deleted

  Step-IsStopped :
      {s t : AsyncQueue A} {op : Op A} (deleted : List A)
      → Step s t op
      → IsStopped s deleted
      → IsStopped t deleted × (taken (op ∷ []) ≡ [])
  unfolding enqueue dequeue stop drain
  Step-IsStopped deleted (enqueued x e) h = ground arith
  Step-IsStopped deleted (dequeued none e) h = ground arith
  Step-IsStopped deleted (dequeued (some x) e) h = ground arith
  Step-IsStopped deleted (stopped e) h = ground arith

  taken-cons : (op : Op A) (ops : List (Op A)) → taken (op ∷ ops) ≡ taken (op ∷ []) ++ taken ops
  taken-cons (enqueues x) ops = refl
  taken-cons (dequeues none) ops = refl
  taken-cons (dequeues (some x)) ops = refl
  taken-cons stops ops = refl

  -- After a stop nothing enters, nothing is returned, and nothing more is deleted.
  pub Run-IsStopped :
      {s u : AsyncQueue A} {ops : List (Op A)} (deleted : List A)
      → Run s ops u
      → IsStopped s deleted
      → IsStopped u deleted × (taken ops ≡ [])
  Run-IsStopped deleted here h = (h, refl)
  Run-IsStopped deleted (next {op = op} {ops = ops} st r) h =
      let (h', e) = Step-IsStopped deleted st h in
      let (h'', e') = Run-IsStopped deleted r h' in (h'', taken-cons op ops ∙ rw (e, e') refl)

  stop-IsStopped : (s : AsyncQueue A) → s.deleted ≡ [] → IsStopped (stop s) s.q
  unfolding stop
  stop-IsStopped s e = record {
    requested = refl;
    emptied = refl;
    kept = rw e (drain-append s.q []);
  }

  -- A completed call on a queue that is not stopped, by its fields.
  pub enqueue_inv :
      (s : AsyncQueue A) {t : AsyncQueue A} (x : A)
      → s.stop_requested ≡ false
      → enqueue s x ≡ some t
      → (t.q ≡ s.q ++ x ∷ [])
        × (t.stop_requested ≡ false)
        × (t.deleted ≡ s.deleted)
        × (t.capacity ≡ s.capacity)
        × (length s.q < s.capacity)
  unfolding enqueue
  enqueue_inv s x e p = ground arith

  pub dequeue_inv :
      (s : AsyncQueue A) {t : AsyncQueue A} (x : A)
      → s.stop_requested ≡ false
      → dequeue s ≡ some (some x, t)
      → (s.q ≡ x ∷ t.q)
        × (t.stop_requested ≡ false)
        × (t.deleted ≡ s.deleted)
        × (t.capacity ≡ s.capacity)
  unfolding dequeue
  dequeue_inv s x e p = ground arith

  dequeue-ne-none :
      (s : AsyncQueue A) {t : AsyncQueue A}
      → s.stop_requested ≡ false
      → dequeue s ≡ some (none, t)
      → ⊥
  unfolding dequeue
  dequeue-ne-none s e p = ground arith

  Run-fifo :
      {s u : AsyncQueue A} {ops : List (Op A)}
      → s.stop_requested ≡ false
      → s.deleted ≡ []
      → Run s ops u
      → s.q ++ accepted ops ≡ taken ops ++ (u.deleted ++ u.q)
  Run-fifo {s} e d here = rw d (append-nil s.q)
  Run-fifo {s} e d (next {ops = ops} (enqueued x p) r) =
      let (q, e', d', _, _) = enqueue_inv s x e p in
      sym (append_assoc s.q (x ∷ []) (accepted ops))
      ∙ (ap (λ l. l ++ accepted ops) (sym q) ∙ Run-fifo e' (d' ∙ d) r)
  Run-fifo {s} e d (next (dequeued none p) r) = absurd (dequeue-ne-none s e p)
  Run-fifo {s} e d (next (dequeued (some x) p) r) =
      let (q, e', d', _) = dequeue_inv s x e p in rw q (ap (◌∷◌ x) (Run-fifo e' (d' ∙ d) r))
  Run-fifo {s} e d (next {u = u} (stopped p) r) =
      let (h, t) = Run-IsStopped s.q r (rw p (stop-IsStopped s d)) in rw (t, h.kept, h.emptied) refl

  -- The elements accepted before the first stop are, in their order, those that dequeue has returned,
  -- then those that stop has handed to the deleter, then those that are still queued: whatever the
  -- calls, none is lost, duplicated or overtaken.
  pub fifo :
      (capacity : ℕ) (u : AsyncQueue A) (ops : List (Op A))
      → Run (make capacity) ops u
      → accepted ops ≡ taken ops ++ (u.deleted ++ u.q)
  unfolding make
  fifo capacity u ops r = Run-fifo refl refl r

  Step-bounded :
      {s t : AsyncQueue A} {op : Op A}
      → Step s t op
      → length s.q ≤ s.capacity
      → (length t.q ≤ t.capacity) × (t.capacity ≡ s.capacity)
  unfolding enqueue dequeue stop
  Step-bounded {s} (enqueued x p) h = ground (arith, length-append s.q (x ∷ []))
  Step-bounded (dequeued none p) h = ground arith
  Step-bounded (dequeued (some x) p) h = ground arith
  Step-bounded (stopped p) h = ground arith

  -- From a queue that holds no more than its capacity, no sequence of calls overfills it or changes its
  -- capacity.
  pub Run-bounded :
      {s u : AsyncQueue A} {ops : List (Op A)}
      → Run s ops u
      → length s.q ≤ s.capacity
      → (length u.q ≤ u.capacity) × (u.capacity ≡ s.capacity)
  Run-bounded here h = (h, refl)
  Run-bounded (next st r) h =
      let (h', e) = Step-bounded st h in let (h'', e') = Run-bounded r h' in (h'', e' ∙ e)
