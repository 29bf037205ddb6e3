-- ===== src/Util/AsyncQueue/Wakeups.antt =====
-- No wake-up is lost among the threads of an AsyncQueue (src/util/async_queue.hpp).
use cliot.Prelude.{
  ℕ, ◌≡◌, inl, inr, true, List, [], ◌∷◌, ◌++◌, none, some, arith, All, In, All-In, Option-cases,
  Bool-cases,
}
use cliot.Util.AsyncQueue.{AsyncQueue, enqueue, stop, dequeue}
use cliot.Util.AsyncQueue.Threads.{
  Call, enqueueing, dequeueing, Thread, System, awake, sleeping, notify_all, enqueue_section,
  dequeue_section, Step, start, Reach, here as start_here, next,
}

module _ {ℓ} {A : Type ℓ} where
  -- The test that a call waits for is false.
  abbrev pub MustWait : AsyncQueue A → Call A → Type ℓ
  MustWait q (enqueueing x) = enqueue q x ≡ none
  MustWait q dequeueing = dequeue q ≡ none

  abbrev pub SleepsRightly : AsyncQueue A → Thread A → Type ℓ
  SleepsRightly q t = t.asleep ≡ true → MustWait q t.call

  -- Unless a notify_all is on its way, whoever sleeps has to.
  abbrev pub NoneForgotten : System A → Type ℓ
  NoneForgotten s = s.notifying ≡ 0 → All (SleepsRightly s.queue) s.threads

  All-notify_all : (q : AsyncQueue A) (ts : List (Thread A)) → All (SleepsRightly q) (notify_all ts)
  All-notify_all q [] = tt
  All-notify_all q (t ∷ ts) = ((λ e. cc), All-notify_all q ts)

  All-others :
      (P : Thread A → Type ℓ) (before after : List (Thread A)) (t : Thread A)
      → All P (before ++ t ∷ after)
      → All P (before ++ after)
  All-others P [] after t h = h.1
  All-others P (x ∷ before) after t h = (h.0, All-others P before after t h.1)

  All-replace :
      (P : Thread A → Type ℓ) (before after : List (Thread A)) (t u : Thread A)
      → P u
      → All P (before ++ t ∷ after)
      → All P (before ++ u ∷ after)
  All-replace P [] after t u p h = (p, h.1)
  All-replace P (x ∷ before) after t u p h = (h.0, All-replace P before after t u p h.1)

  enqueue_stopped :
      (q : AsyncQueue A) (x : A) (q' : AsyncQueue A)
      → q.stop_requested ≡ true
      → enqueue q x ≡ some q'
      → q ≡ q'
  unfolding enqueue
  enqueue_stopped q x q' s e = ground arith

  dequeue_stopped : (q q' : AsyncQueue A) → dequeue q ≡ some (none, q') → q ≡ q'
  unfolding dequeue
  dequeue_stopped q q' e = ground arith

  enqueue_section-NoneForgotten :
      (s : System A) (before after : List (Thread A)) (x : A)
      → (s.notifying ≡ 0 → All (SleepsRightly s.queue) (before ++ awake (enqueueing x) ∷ after))
      → NoneForgotten (enqueue_section s before x after)
  unfolding enqueue_section
  enqueue_section-NoneForgotten s before after x inv = elim (Option-cases (enqueue s.queue x)) [
    | inl e ↦
        rw (e, enqueue_section)
          (λ z. All-replace (SleepsRightly s.queue) before after _ _ (λ _. e) (inv z))
    | inr (q, e) ↦ elim (Bool-cases s.queue.stop_requested) [
      | inl stopped ↦
          rw (e, enqueue_section, stopped)
            (λ z.
              rw (← enqueue_stopped s.queue x q stopped e)
                (All-others (SleepsRightly s.queue) before after _ (inv z)))
      | inr running ↦ rw (e, enqueue_section, running) (λ z. All-notify_all q (before ++ after))
    ]
  ]

  dequeue_section-NoneForgotten :
      (s : System A) (before after : List (Thread A))
      → (s.notifying ≡ 0 → All (SleepsRightly s.queue) (before ++ awake dequeueing ∷ after))
      → NoneForgotten (dequeue_section s before after)
  unfolding dequeue_section
  dequeue_section-NoneForgotten s before after inv = elim (Option-cases (dequeue s.queue)) [
    | inl e ↦
        rw (e, dequeue_section)
          (λ z. All-replace (SleepsRightly s.queue) before after _ _ (λ _. e) (inv z))
    | inr ((none, q), e) ↦
        rw (e, dequeue_section)
          (λ z.
            rw (← dequeue_stopped s.queue q e)
              (All-others (SleepsRightly s.queue) before after _ (inv z)))
    | inr ((some x, q), e) ↦ rw (e, dequeue_section) (λ z. absurd (omega arith))
  ]

  Step-NoneForgotten : {s t : System A} → Step s t → NoneForgotten s → NoneForgotten t
  Step-NoneForgotten (Step.calls c e) inv = rw e (λ z. ((λ h. cc), inv z))
  Step-NoneForgotten {s} (Step.enqueues before after x p e) inv =
      rw e (enqueue_section-NoneForgotten s before after x (λ z. rw p at (inv z)))
  Step-NoneForgotten {s} (Step.dequeues before after p e) inv =
      rw e (dequeue_section-NoneForgotten s before after (λ z. rw p at (inv z)))
  Step-NoneForgotten {s} (Step.notifies n p e) inv = rw e (λ z. All-notify_all s.queue s.threads)
  Step-NoneForgotten {s} (Step.stops e) inv = rw e (λ z. All-notify_all (stop s.queue) s.threads)
  Step-NoneForgotten {s} (Step.wakes before after c p e) inv = rw e (λ z.
      All-replace (SleepsRightly s.queue) before after (sleeping c) (awake c) (λ h. cc)
        (rw p at (inv z)))

  Reach-NoneForgotten : (capacity : ℕ) {t : System A} → Reach (start capacity) t → NoneForgotten t
  Reach-NoneForgotten capacity start_here = λ z. tt
  Reach-NoneForgotten capacity (next r st) = Step-NoneForgotten st (Reach-NoneForgotten capacity r)

  -- In every state that the threads can reach, if no notify_all is on its way, then a thread that is
  -- asleep in enqueue finds the queue full and not stopped, and one that is asleep in dequeue finds it
  -- empty and not stopped.
  pub sleeping-MustWait :
      (capacity : ℕ) (t : System A) (th : Thread A)
      → Reach (start capacity) t
      → t.notifying ≡ 0
      → In th t.threads
      → th.asleep ≡ true
      → MustWait t.queue th.call
  sleeping-MustWait capacity t th r z m =
      All-In (SleepsRightly t.queue) t.threads (Reach-NoneForgotten capacity r z) m
