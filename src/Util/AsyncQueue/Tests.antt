-- ===== src/Util/AsyncQueue/Tests.antt =====
-- The queue (src/util/async_queue.hpp) on short histories.
use cliot.Prelude.{
  ℕ, ◌≡◌, ◌≤◌, refl, Bool, List, true, false, [], ◌∷◌, ◌++◌, none, some, arith, length, here, there,
}
use cliot.Util.AsyncQueue.{AsyncQueue, make, enqueue, drain, stop, dequeue}
use cliot.Util.AsyncQueue.History.{
  Op, enqueues, dequeues, stops, Run, next, enqueued, dequeued, stopped, accepted, taken, fifo,
  Run-bounded,
}
use cliot.Util.AsyncQueue.History.{here as done}
use cliot.Util.AsyncQueue.Threads.{
  Thread, System, Call, enqueueing, dequeueing, sleeping, awake, Step, Reach, start,
}
use cliot.Util.AsyncQueue.Threads.{here as reached, next as after}
use cliot.Util.AsyncQueue.Deadlock.{no_deadlock}
use cliot.Util.AsyncQueue.Wakeups.{MustWait, sleeping-MustWait}

abbrev history : List (Op ℕ)
history = enqueues 7 ∷ enqueues 8 ∷ dequeues (some 7) ∷ enqueues 9 ∷ stops ∷ dequeues none ∷ []

abbrev final : AsyncQueue ℕ
final = record { capacity = 2; q = []; stop_requested = true; deleted = 8 ∷ 9 ∷ [] }

history-Run : Run (make 2) history final
unfolding make enqueue dequeue drain stop
history-Run =
    next {t = record { capacity = 2; q = 7 ∷ []; stop_requested = false; deleted = [] }}
      (enqueued 7 refl)
      (next {t = record { capacity = 2; q = 7 ∷ 8 ∷ []; stop_requested = false; deleted = [] }}
        (enqueued 8 refl)
        (next {t = record { capacity = 2; q = 8 ∷ []; stop_requested = false; deleted = [] }}
          (dequeued (some 7) refl)
          (next {t = record { capacity = 2; q = 8 ∷ 9 ∷ []; stop_requested = false; deleted = [] }}
            (enqueued 9 refl) (next {t = final} (stopped refl) (next (dequeued none refl) done)))))

fifo_example : accepted history ≡ taken history ++ (final.deleted ++ final.q)
fifo_example = fifo 2 final history history-Run

Run-bounded_example : (length final.q ≤ final.capacity) × (final.capacity ≡ 2)
unfolding make
Run-bounded_example = Run-bounded history-Run (omega arith)

-- One thread that calls dequeue on an empty queue and goes to sleep.
abbrev waiting : System ℕ
waiting = record { queue = make 2; threads = sleeping dequeueing ∷ []; notifying = 0 }

abbrev called : System ℕ
called = record { queue = make 2; threads = awake dequeueing ∷ []; notifying = 0 }

waiting_reached : Reach (start 2) waiting
unfolding dequeue cliot.Util.AsyncQueue.Threads.dequeue_section make
waiting_reached =
    after {t = called} (after reached (Step.calls dequeueing refl)) (Step.dequeues [] [] refl refl)

sleeping-MustWait_example : MustWait waiting.queue dequeueing
sleeping-MustWait_example =
    sleeping-MustWait 2 waiting (sleeping dequeueing) waiting_reached refl here refl

-- A thread sleeps in enqueue on a full queue while another has just called dequeue.
abbrev one : System ℕ
one = record {
  queue = record { capacity = 1; q = 5 ∷ []; stop_requested = false; deleted = [] };
  threads = [];
  notifying = 0;
}

abbrev full : System ℕ
full = record one { threads = awake dequeueing ∷ sleeping (enqueueing 6) ∷ [] }

full_reached : Reach (start 1) full
unfolding enqueue cliot.Util.AsyncQueue.Threads.enqueue_section make
full_reached =
    after {t = record one { threads = sleeping (enqueueing 6) ∷ [] }}
      (after {t = record one { threads = awake (enqueueing 6) ∷ [] }}
        (after {t = one}
          (after {t = record one { queue = make 1; threads = awake (enqueueing 5) ∷ [] }}
            (after reached (Step.calls (enqueueing 5) refl)) (Step.enqueues [] [] 5 refl refl))
          (Step.calls (enqueueing 6) refl))
        (Step.enqueues [] [] 6 refl refl))
      (Step.calls dequeueing refl)

no_deadlock_example : ◌≡◌ {A = Bool} (awake {A = ℕ} dequeueing).asleep false
no_deadlock_example =
    no_deadlock 1 full 6 (sleeping (enqueueing 6)) (awake dequeueing) (omega arith) full_reached
      refl (there here) refl refl here refl
