-- ===== src/Util/AsyncQueue/Running.antt =====
-- The two methods of a queue that is not stopped (src/util/async_queue.hpp).
use cliot.Prelude.{
  ◌≡◌, refl, ◌⊎◌, inl, inr, ◌<◌, true, false, List, [], ◌∷◌, ◌++◌, none, some, arith, length,
  lt→ltb,
}
use cliot.Util.AsyncQueue.{AsyncQueue, enqueue, dequeue}

module _ {ℓ} {A : Type ℓ} where
  pub enqueue_running :
      (s : AsyncQueue A) (x : A)
      → s.stop_requested ≡ false
      → length s.q < s.capacity
      → enqueue s x ≡ some (record s { q = s.q ++ x ∷ [] })
  unfolding enqueue
  enqueue_running s x e h = rw (lt→ltb (length s.q) s.capacity h, e)

  abbrev pub Dequeues : AsyncQueue A → Type ℓ
  Dequeues s =
      ((s.q ≡ []) × (dequeue s ≡ none))
      ⊎ ((x : A) × (rest : List A) × (s.q ≡ x ∷ rest)
          × (dequeue s ≡ some (some x, record s { q = rest })))

  by_items :
      (s : AsyncQueue A) (items : List A) → s.stop_requested ≡ false → s.q ≡ items → Dequeues s
  unfolding dequeue
  by_items s [] e h = inl (h, rw (h, e) refl)
  by_items s (x ∷ rest) e h = inr (x, rest, h, ground arith)

  pub dequeue_running : (s : AsyncQueue A) → s.stop_requested ≡ false → Dequeues s
  dequeue_running s e = by_items s s.q e refl

-- A stopped queue gives nothing.
pub dequeue_stopped {ℓ} :
    {A : Type ℓ} (s : AsyncQueue A) → s.stop_requested ≡ true → dequeue s ≡ some (none, s)
unfolding dequeue
dequeue_stopped s e = ground arith
