-- ===== src/Recorder/BoundedQueue.antt =====
-- recorder/src/common/BoundedQueue.hpp. Each method holds the mutex from its first line to its last,
-- so a run of the threads is a sequence of calls.
pub mod Order
use gambit_record.Common.{
  ℕ, suc, ◌+◌, Bool, true, false, not, ◌&&◌, List, [], ◌∷◌, ◌++◌, Option, none, some, leb,
  if◌then◌else◌, length, is_empty,
}

pub record BoundedQueue {ℓ} (T : Type ℓ) : Type ℓ where
  pub capacity : ℕ
  pub queue : List T
  pub closed : Bool
  pub dropped : ℕ

-- A `pop` gives its answer, or waits on the condition variable.
pub data Popped {ℓ} (T : Type ℓ) : Type ℓ where
  waits : Popped T
  gives : Option T → Popped T

module _ {ℓ} {T : Type ℓ} where
  unfoldable pub bounded_queue : ℕ → BoundedQueue T
  bounded_queue capacity = record { capacity = capacity; queue = []; closed = false; dropped = 0 }

  -- A full queue loses its oldest entry. `none` is `pop_front` of an empty deque, which is
  -- undefined; it takes a capacity of 0.
  push_full : T → BoundedQueue T → List T → Option (BoundedQueue T × Bool)
  push_full value q [] = none
  push_full value q (oldest ∷ rest) =
      some (record q { queue = rest ++ value ∷ []; dropped = q.dropped + 1 }, false)

  unfoldable pub push_drop_oldest : T → BoundedQueue T → Option (BoundedQueue T × Bool)
  unfolding push_full
  push_drop_oldest value q =
      if q.closed
      then some (q, false)
      else if leb q.capacity (length q.queue)
      then push_full value q q.queue
      else some (record q { queue = q.queue ++ value ∷ [] }, true)

  pop_front : BoundedQueue T → List T → Bool → BoundedQueue T × Popped T
  pop_front q [] true = (q, gives none)
  pop_front q [] false = (q, waits)
  pop_front q (value ∷ rest) stop = (record q { queue = rest }, gives (some value))

  -- `stop` is the token's request to stop.
  unfoldable pub pop : Bool → BoundedQueue T → BoundedQueue T × Popped T
  unfolding pop_front
  pop stop q = pop_front q q.queue (if q.closed then true else stop)

  unfoldable pub close : BoundedQueue T → BoundedQueue T
  close q = record q { closed = true }

  unfoldable pub clear : BoundedQueue T → BoundedQueue T
  clear q = record q { queue = [] }

  pub size : BoundedQueue T → ℕ
  size q = length q.queue
