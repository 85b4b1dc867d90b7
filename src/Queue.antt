-- ===== src/Queue.antt =====
-- include/bounded_queue.h: the queue between the reader and a worker. Its mutex makes each call one
-- step; a call that waits is a step that is not there yet.
pub mod Traces
pub mod Order
pub mod Waiting
mod Tests
use flow_dpi.Prelude.{
  ℕ, List, [], ◌∷◌, ◌++◌, length, Bool, true, false, not, ◌||◌, Option, none, some, ltb,
  if◌then◌else◌,
}

-- `BoundedQueue`
pub record BoundedQueue {ℓ} (A : Type ℓ) : Type ℓ where
  pub queue : List A
  pub capacity : ℕ
  pub closed : Bool

module _ {ℓ} {A : Type ℓ} where
  abbrev pub new_queue : ℕ → BoundedQueue A
  new_queue capacity = record { queue = []; capacity = capacity; closed = false }

  -- `push`: `none` while it waits, then what it returns and the queue behind it.
  unfoldable pub push : A → BoundedQueue A → Option (Bool × BoundedQueue A)
  push item q =
      if not (ltb (length q.queue) q.capacity || q.closed)
      then none
      else (if q.closed
          then some (false, q)
          else some (true, record q { queue = q.queue ++ (item ∷ []) }))

  -- `pop`: `none` while it waits, then the item, if it returns true, and the queue behind it.
  unfoldable pub pop_front : List A → BoundedQueue A → Option (Option A × BoundedQueue A)
  pop_front [] q = if q.closed then some (none, q) else none
  pop_front (item ∷ rest) q = some (some item, record q { queue = rest })

  unfoldable pub pop : BoundedQueue A → Option (Option A × BoundedQueue A)
  pop q = pop_front q.queue q

  -- `close`
  unfoldable pub close : BoundedQueue A → BoundedQueue A
  close q = record q { closed = true }

  -- `size`
  abbrev pub size : BoundedQueue A → ℕ
  size q = length q.queue
