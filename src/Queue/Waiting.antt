-- ===== src/Queue/Waiting.antt =====
-- include/bounded_queue.h with its condition variables: what a thread does inside push, pop and
-- close between two waits. A step is what a thread does under the mutex, a notification, a call or a
-- wake-up that nobody asked for.
pub mod Counts
pub mod Served
pub mod Notified
pub mod Rested
pub mod Measure
pub mod Settles
mod Tests
mod Matches
use flow_dpi.Prelude.{
  ℕ, List, [], ◌∷◌, ◌≡◌, Bool, true, false, Option, none, some, replicate, ◌+◌, ◌++◌, map,
}
use flow_dpi.Queue.{BoundedQueue, new_queue, push, pop, close}
use flow_dpi.Queue.Traces.{Event}

-- Where a thread is: outside the queue, about to test what it waits for, on `not_full_` or
-- `not_empty_`, about to set `closed_`, or past the mutex and about to notify.
pub data Caller {ℓ} (A : Type ℓ) : Type ℓ where
  outside popping pop_waits shutting : Caller A
  notifies_popper notifies_pusher notifies_poppers notifies_pushers : Caller A
  pushing push_waits : A → Caller A

-- The queue behind a turn under the mutex, where the thread is then, and what has returned.
abbrev pub Turn {ℓ} : Type ℓ → Type ℓ
Turn A = BoundedQueue A × Caller A × List (Event A)

module _ {ℓ} {A : Type ℓ} where
  unfoldable pub push_turn : A → BoundedQueue A → Option (Bool × BoundedQueue A) → Turn A
  push_turn x q none = (q, push_waits x, [])
  push_turn x q (some (true, q')) = (q', notifies_popper, Event.pushed x ∷ [])
  push_turn x q (some (false, q')) = (q', outside, Event.push_failed x ∷ [])

  unfoldable pub pop_turn : BoundedQueue A → Option (Option A × BoundedQueue A) → Turn A
  pop_turn q none = (q, pop_waits, [])
  pop_turn q (some (some x, q')) = (q', notifies_pusher, Event.popped x ∷ [])
  pop_turn q (some (none, q')) = (q', outside, Event.drained ∷ [])

  -- The turn of a thread that wants the mutex; `none` for the others.
  unfoldable pub turn : Caller A → BoundedQueue A → Option (Turn A)
  turn (pushing x) q = some (push_turn x q (push x q))
  turn popping q = some (pop_turn q (pop q))
  turn shutting q = some (close q, notifies_poppers, Event.closing ∷ [])
  turn c q = none

  -- `notify_all` of `not_empty_` and of `not_full_`: whoever waits tests again.
  unfoldable pub wake_popper : Caller A → Caller A
  wake_popper pop_waits = popping
  wake_popper c = c

  unfoldable pub wake_pusher : Caller A → Caller A
  wake_pusher (push_waits x) = pushing x
  wake_pusher c = c

  -- One thread goes from one place to another.
  pub data Moves (c d : Caller A) : List (Caller A) → List (Caller A) → Type ℓ where
    here : {cs : List (Caller A)} → Moves c d (c ∷ cs) (d ∷ cs)
    there : {b : Caller A} {cs ds : List (Caller A)} → Moves c d cs ds → Moves c d (b ∷ cs) (b ∷ ds)

  -- How many threads wait.
  abbrev pub pop_waiting : Caller A → ℕ
  pop_waiting pop_waits = 1
  pop_waiting c = 0

  abbrev pub push_waiting : Caller A → ℕ
  push_waiting (push_waits x) = 1
  push_waiting c = 0

  unfoldable pub count : (Caller A → ℕ) → List (Caller A) → ℕ
  count weight [] = 0
  count weight (c ∷ cs) = weight c + count weight cs

-- The queue and the threads that use it.
pub record System {ℓ} (A : Type ℓ) : Type ℓ where
  pub shared : BoundedQueue A
  pub callers : List (Caller A)

module _ {ℓ} {A : Type ℓ} where
  -- A thread calls push, pop or close.
  pub data Calls : Caller A → Type ℓ where
    calls_push : (x : A) → Calls (pushing x)
    calls_pop : Calls popping
    calls_close : Calls shutting

  -- A thread leaves a wait, with or without a notification, and tests again.
  pub data Wakes : Caller A → Caller A → Type ℓ where
    wakes_popper : Wakes pop_waits popping
    wakes_pusher : (x : A) → Wakes (push_waits x) (pushing x)

  -- A step of a thread inside a call; `notify_one` wakes any waiting thread, if there is one.
  pub data Step : System A → List (Event A) → System A → Type ℓ where
    take_turn :
        {q q' : BoundedQueue A} {c d : Caller A} {es : List (Event A)} {cs ds : List (Caller A)}
        → turn c q ≡ some (q', d, es)
        → Moves c d cs ds
        → Step (record { shared = q; callers = cs }) es (record { shared = q'; callers = ds })
    popper_notified :
        {q : BoundedQueue A} {cs ds es : List (Caller A)}
        → Moves notifies_popper outside cs ds
        → Moves pop_waits popping ds es
        → Step (record { shared = q; callers = cs }) [] (record { shared = q; callers = es })
    no_popper :
        {q : BoundedQueue A} {cs ds : List (Caller A)}
        → Moves notifies_popper outside cs ds
        → count pop_waiting cs ≡ 0
        → Step (record { shared = q; callers = cs }) [] (record { shared = q; callers = ds })
    pusher_notified :
        {q : BoundedQueue A} {cs ds es : List (Caller A)} (x : A)
        → Moves notifies_pusher outside cs ds
        → Moves (push_waits x) (pushing x) ds es
        → Step (record { shared = q; callers = cs }) [] (record { shared = q; callers = es })
    no_pusher :
        {q : BoundedQueue A} {cs ds : List (Caller A)}
        → Moves notifies_pusher outside cs ds
        → count push_waiting cs ≡ 0
        → Step (record { shared = q; callers = cs }) [] (record { shared = q; callers = ds })
    poppers_notified :
        {q : BoundedQueue A} {cs ds : List (Caller A)}
        → Moves notifies_poppers notifies_pushers cs ds
        → Step
            (record { shared = q; callers = cs })
            []
            (record { shared = q; callers = map wake_popper ds })
    pushers_notified :
        {q : BoundedQueue A} {cs ds : List (Caller A)}
        → Moves notifies_pushers outside cs ds
        → Step
            (record { shared = q; callers = cs })
            []
            (record { shared = q; callers = map wake_pusher ds })

  -- Calls, wake-ups that nobody asked for, and steps, in any order.
  pub data Run : System A → List (Event A) → System A → Type ℓ where
    rest : {s : System A} → Run s [] s
    calls :
        {q : BoundedQueue A} {cs ds : List (Caller A)} {c : Caller A} {es : List (Event A)}
        {s : System A}
        → Calls c
        → Moves outside c cs ds
        → Run (record { shared = q; callers = ds }) es s
        → Run (record { shared = q; callers = cs }) es s
    wakes :
        {q : BoundedQueue A} {cs ds : List (Caller A)} {c d : Caller A} {es : List (Event A)}
        {s : System A}
        → Wakes c d
        → Moves c d cs ds
        → Run (record { shared = q; callers = ds }) es s
        → Run (record { shared = q; callers = cs }) es s
    steps :
        {s s' s'' : System A} {es more : List (Event A)}
        → Step s es s'
        → Run s' more s''
        → Run s (es ++ more) s''

  -- A new queue, with threads that have not called it.
  abbrev pub idle_system : ℕ → ℕ → System A
  idle_system capacity threads = record {
    shared = new_queue capacity;
    callers = replicate threads outside;
  }
