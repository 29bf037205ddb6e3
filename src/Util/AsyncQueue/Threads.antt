-- ===== src/Util/AsyncQueue/Threads.antt =====
-- Threads that share an AsyncQueue (src/util/async_queue.hpp): who waits on the condition variable,
-- and who wakes whom. A step is one critical section under the mutex, or one notify_all.
use cliot.Prelude.{
  ℕ, suc, ◌≡◌, Bool, true, false, List, [], ◌∷◌, ◌++◌, none, some, map, if◌then◌else◌,
}
use cliot.Util.AsyncQueue.{AsyncQueue, make, enqueue, stop, dequeue}

-- A call that has not returned yet.
pub data Call {ℓ} (A : Type ℓ) : Type ℓ where
  enqueueing : A → Call A
  dequeueing : Call A

pub record Thread {ℓ} (A : Type ℓ) : Type ℓ where
  pub call : Call A
  pub asleep : Bool

-- `notifying` counts the dequeue calls that have left their critical section and not yet called
-- notify_all: the only method that unlocks first.
pub record System {ℓ} (A : Type ℓ) : Type ℓ where
  pub queue : AsyncQueue A
  pub threads : List (Thread A)
  pub notifying : ℕ

module _ {ℓ} {A : Type ℓ} where
  abbrev pub awake : Call A → Thread A
  awake c = record { call = c; asleep = false }

  abbrev pub sleeping : Call A → Thread A
  sleeping c = record { call = c; asleep = true }

  -- cv_.notify_all()
  abbrev pub notify_all : List (Thread A) → List (Thread A)
  notify_all = map {A = Thread A} (λ t. awake t.call)

  -- The test of `cv_.wait` and what follows, of a thread that holds the mutex. `others` stand before
  -- and behind it.
  unfoldable pub enqueue_section : System A → List (Thread A) → A → List (Thread A) → System A
  enqueue_section s before x after = elim (enqueue s.queue x) [
    | none ↦ record s { threads = before ++ sleeping (enqueueing x) ∷ after }
    | some q ↦ record s {
      queue = q;
      threads = if s.queue.stop_requested then before ++ after else notify_all (before ++ after);
    }
  ]

  unfoldable pub dequeue_section : System A → List (Thread A) → List (Thread A) → System A
  dequeue_section s before after = elim (dequeue s.queue) [
    | none ↦ record s { threads = before ++ sleeping dequeueing ∷ after }
    | some (r, q) ↦ elim r [
      | none ↦ record s { queue = q; threads = before ++ after }
      | some x ↦ record s { queue = q; threads = before ++ after; notifying = suc s.notifying }
    ]
  ]

  pub data Step (s t : System A) : Type ℓ where
    calls : (c : Call A) → t ≡ record s { threads = awake c ∷ s.threads } → Step s t
    enqueues :
        (before after : List (Thread A)) (x : A)
        → s.threads ≡ before ++ awake (enqueueing x) ∷ after
        → t ≡ enqueue_section s before x after
        → Step s t
    dequeues :
        (before after : List (Thread A))
        → s.threads ≡ before ++ awake dequeueing ∷ after
        → t ≡ dequeue_section s before after
        → Step s t
    notifies :
        (n : ℕ)
        → s.notifying ≡ suc n
        → t ≡ record s { threads = notify_all s.threads; notifying = n }
        → Step s t
    stops : t ≡ record s { queue = stop s.queue; threads = notify_all s.threads } → Step s t
    -- A wake-up that nobody asked for.
    wakes :
        (before after : List (Thread A)) (c : Call A)
        → s.threads ≡ before ++ sleeping c ∷ after
        → t ≡ record s { threads = before ++ awake c ∷ after }
        → Step s t

  abbrev pub start : ℕ → System A
  start capacity = record { queue = make capacity; threads = []; notifying = 0 }

  pub data Reach (s : System A) : System A → Type ℓ where
    here : Reach s s
    next : {t u : System A} → Reach s t → Step t u → Reach s u
