-- ===== src/Util/AsyncQueue/Deadlock.antt =====
-- Threads that wait for each other on an AsyncQueue (src/util/async_queue.hpp).
use cliot.Prelude.{
  ℕ, ◌<◌, ◌≡◌, refl, ◌∙◌, subst, inl, inr, true, false, List, Option, none, some, arith, In,
  Option-cases, Bool-cases,
}
use cliot.Util.AsyncQueue.{AsyncQueue, make, enqueue, stop, dequeue, pop_front}
use cliot.Util.AsyncQueue.Threads.{
  enqueueing, dequeueing, Thread, System, enqueue_section, dequeue_section, Step, start, Reach,
  here as start_here, next,
}
use cliot.Util.AsyncQueue.Wakeups.{MustWait, sleeping-MustWait}

module _ {ℓ} {A : Type ℓ} where
  enqueue-capacity :
      (q : AsyncQueue A) (x : A) (q' : AsyncQueue A)
      → enqueue q x ≡ some q'
      → q'.capacity ≡ q.capacity
  unfolding enqueue
  enqueue-capacity q x q' e = ground arith

  dequeue-capacity :
      (q : AsyncQueue A) (r : Option A) (q' : AsyncQueue A)
      → dequeue q ≡ some (r, q')
      → q'.capacity ≡ q.capacity
  unfolding dequeue pop_front
  dequeue-capacity q r q' e = ground arith

  enqueue_section-capacity :
      (s : System A) (before after : List (Thread A)) (x : A)
      → (enqueue_section s before x after).queue.capacity ≡ s.queue.capacity
  unfolding enqueue_section
  enqueue_section-capacity s before after x = elim (Option-cases (enqueue s.queue x)) [
    | inl e ↦ rw (e, enqueue_section) refl
    | inr (q, e) ↦ rw (e, enqueue_section) (enqueue-capacity s.queue x q e)
  ]

  dequeue_section-capacity :
      (s : System A) (before after : List (Thread A))
      → (dequeue_section s before after).queue.capacity ≡ s.queue.capacity
  unfolding dequeue_section
  dequeue_section-capacity s before after = elim (Option-cases (dequeue s.queue)) [
    | inl e ↦ rw (e, dequeue_section) refl
    | inr ((none, q), e) ↦ rw (e, dequeue_section) (dequeue-capacity s.queue none q e)
    | inr ((some x, q), e) ↦ rw (e, dequeue_section) (dequeue-capacity s.queue (some x) q e)
  ]

  Step-capacity : {s t : System A} → Step s t → t.queue.capacity ≡ s.queue.capacity
  unfolding stop
  Step-capacity (Step.calls c e) = rw e refl
  Step-capacity {s} (Step.enqueues before after x p e) =
      rw e (enqueue_section-capacity s before after x)
  Step-capacity {s} (Step.dequeues before after p e) =
      rw e (dequeue_section-capacity s before after)
  Step-capacity (Step.notifies n p e) = rw e refl
  Step-capacity (Step.stops e) = rw e refl
  Step-capacity (Step.wakes before after c p e) = rw e refl

  Reach-capacity :
      (capacity : ℕ) {t : System A} → Reach (start capacity) t → t.queue.capacity ≡ capacity
  unfolding make
  Reach-capacity capacity start_here = refl
  Reach-capacity capacity (next r st) = Step-capacity st ∙ Reach-capacity capacity r

  -- A queue that has room for something is not full and empty at once.
  not_both_wait :
      (q : AsyncQueue A) (x : A) → 0 < q.capacity → enqueue q x ≡ none → dequeue q ≡ none → ⊥
  unfolding enqueue dequeue pop_front
  not_both_wait q x h e d = ground arith

  -- No deadlock: with a capacity above zero, in every state that the threads can reach with no
  -- notify_all on its way, if a thread is asleep in enqueue then every thread that has called dequeue is
  -- awake.
  pub no_deadlock :
      (capacity : ℕ) (t : System A) (x : A) (producer consumer : Thread A)
      → 0 < capacity
      → Reach (start capacity) t
      → t.notifying ≡ 0
      → In producer t.threads
      → producer.call ≡ enqueueing x
      → producer.asleep ≡ true
      → In consumer t.threads
      → consumer.call ≡ dequeueing
      → consumer.asleep ≡ false
  no_deadlock capacity t x producer consumer h r z m p asleep n c =
      elim (Bool-cases consumer.asleep) [
        | inl a ↦ absurd (
            not_both_wait t.queue x (rw (Reach-capacity capacity r) h)
              (subst (MustWait t.queue) p (sleeping-MustWait capacity t producer r z m asleep))
              (subst (MustWait t.queue) c (sleeping-MustWait capacity t consumer r z n a)))
        | inr a ↦ a
      ]
