-- ===== src/Util/AsyncQueue.antt =====
-- AsyncQueue (src/util/async_queue.hpp). Each method is one critical section under the mutex; where
-- it waits on the condition variable it has no result, and the caller tries again when woken.
pub mod History
pub mod Running
pub mod Threads
pub mod Wakeups
pub mod Deadlock
mod Tests
use cliot.Prelude.{
  ℕ, ◌<◌, ◌≤◌, ◌≡◌, refl, Bool, true, false, not, ◌||◌, List, [], ◌∷◌, ◌++◌, Option, none, some,
  arith, length, is_empty, ltb, if◌then◌else◌, length-append,
}

-- The fields, and the elements that `deleter_` was called on, in order.
pub record AsyncQueue {ℓ} (A : Type ℓ) : Type ℓ where
  pub capacity : ℕ
  pub q : List A
  pub stop_requested : Bool
  pub deleted : List A

module _ {ℓ} {A : Type ℓ} where
  unfoldable pub make : ℕ → AsyncQueue A
  make capacity = record { capacity = capacity; q = []; stop_requested = false; deleted = [] }

  -- `none`: the caller waits.
  unfoldable pub enqueue : AsyncQueue A → A → Option (AsyncQueue A)
  enqueue s element =
      if ltb (length s.q) s.capacity || s.stop_requested
      then some (if s.stop_requested then s else record s { q = s.q ++ element ∷ [] })
      else none

  -- The loop of `stop`: each element goes to the deleter, from the front.
  unfoldable pub drain : List A → List A → List A
  drain [] deleted = deleted
  drain (x ∷ q) deleted = drain q (deleted ++ x ∷ [])

  unfoldable pub stop : AsyncQueue A → AsyncQueue A
  stop s = record s { stop_requested = true; deleted = drain s.q s.deleted; q = [] }

  pub size : AsyncQueue A → ℕ
  size s = length s.q

  unfoldable pub pop_front : AsyncQueue A → List A → Option (Option A × AsyncQueue A)
  pop_front s [] = none
  pop_front s (x ∷ rest) = some (some x, record s { q = rest })

  -- The outer `none`: the caller waits. The inner one is the empty result.
  unfoldable pub dequeue : AsyncQueue A → Option (Option A × AsyncQueue A)
  unfolding pop_front
  dequeue s =
      if not (is_empty s.q) || s.stop_requested
      then (if s.stop_requested then some (none, s) else pop_front s s.q)
      else none
