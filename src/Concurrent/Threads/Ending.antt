-- ===== src/Concurrent/Threads/Ending.antt =====
-- How the threads end: after boundedly many steps, and never by waiting for each other.
use flow_dpi.Prelude.{
  ℕ, zero, suc, ◌+◌, ◌*◌, ◌<◌, ◌≤◌, ◌≡◌, List, length, some, inl, inr, ◌⊎◌, arith,
}
use flow_dpi.Types.{FiveTuple, RawPacket}
use flow_dpi.Rules.{BlockRules}
use flow_dpi.Concurrent.{WorkItem, work_items, at_least_one}
use flow_dpi.Concurrent.Gather.{Workers}
use flow_dpi.Concurrent.Threads.Invariant.{IsSound}
use flow_dpi.Concurrent.Agreement.{workers_finish, at_least_one-pos}
use flow_dpi.Concurrent.Threads.{System, start, Step, Run, stay, then, IsJoined}
use flow_dpi.Concurrent.Threads.Preserved.{Step-IsSound, Run-IsSound, start-IsSound}
use flow_dpi.Concurrent.Threads.Progress.{IsSound-moves}
use flow_dpi.Concurrent.Threads.Measure.{system_work, Step-lt, Run-le, start_work}

-- However the steps of the threads are ordered, there are at most three for each item, two for each
-- worker and one more; and as long as not all threads are joined, some thread can take a step.
pub Run-ends :
    (hash : FiveTuple → ℕ) (rules : BlockRules) (num_workers queue_capacity : ℕ)
    (raws : List (RawPacket × ℕ)) (items : List WorkItem) (steps : ℕ) (s : System)
    → work_items raws ≡ some items
    → Run hash (at_least_one num_workers) (start rules queue_capacity items) steps s
    → (steps ≤ 3 * length items + (2 * at_least_one num_workers + 1))
      × (IsJoined hash (at_least_one num_workers) s
          ⊎ ((s' : System) × Step hash (at_least_one num_workers) s s'))
Run-ends hash rules num_workers queue_capacity raws items steps s e run =
    let n = at_least_one num_workers in
    let some_worker = at_least_one-pos num_workers in
    let (engine, final, f, done, whole, agree) =
      workers_finish hash rules num_workers raws items e in
    let sound =
      Run-IsSound hash n final run (start-IsSound hash n final rules queue_capacity items done) in
    (
      omega (arith, Run-le hash n some_worker run, start_work rules queue_capacity n items),
      IsSound-moves hash n final s sound some_worker,
    )

-- A sound state is followed by one in which all threads are joined.
completes :
    (hash : FiveTuple → ℕ) (n : ℕ) (final : Workers) (fuel steps : ℕ) (origin s : System)
    → 0 < n
    → IsSound hash n final s
    → system_work n s < fuel
    → Run hash n origin steps s
    → (more : ℕ) × (s' : System) × Run hash n origin more s' × IsJoined hash n s'
completes hash n final zero steps origin s some_worker sound enough run = absurd (omega arith)
completes hash n final (suc fuel) steps origin s some_worker sound enough run =
    elim (IsSound-moves hash n final s sound some_worker) [
      | inl joined ↦ (steps, s, run, joined)
      | inr (s', step) ↦
          completes hash n final fuel (suc steps) origin s' some_worker
            (Step-IsSound hash n final step sound)
            (omega (arith, enough, Step-lt hash n some_worker step)) (then run step)
    ]

-- Wherever the threads have got to, steps of theirs lead to a state in which all are joined.
pub Run-joins :
    (hash : FiveTuple → ℕ) (rules : BlockRules) (num_workers queue_capacity : ℕ)
    (raws : List (RawPacket × ℕ)) (items : List WorkItem) (steps : ℕ) (s : System)
    → work_items raws ≡ some items
    → Run hash (at_least_one num_workers) (start rules queue_capacity items) steps s
    → (more : ℕ) × (s' : System) × Run hash (at_least_one num_workers) s more s'
      × IsJoined hash (at_least_one num_workers) s'
Run-joins hash rules num_workers queue_capacity raws items steps s e run =
    let n = at_least_one num_workers in
    let (engine, final, f, done, whole, agree) =
      workers_finish hash rules num_workers raws items e in
    let sound =
      Run-IsSound hash n final run (start-IsSound hash n final rules queue_capacity items done) in
    completes hash n final (suc (system_work n s)) 0 s s (at_least_one-pos num_workers) sound
      (omega arith) stay
