-- ===== src/Concurrent/Threads.antt =====
-- src/concurrent_dpi_engine.cpp, processFile: the threads. A step is one thread's: the load balancer
-- routes the next item or closes a queue, a worker takes an item, processes it or ends. push, pop
-- and close are steps under the queue's mutex; a worker's engine is its own. The load balancer's
-- parsing touches nothing shared, so the items stand parsed in the list that it routes.
pub mod Invariant
pub mod Preserved
pub mod Outcome
pub mod Progress
pub mod Measure
pub mod Ending
use flow_dpi.Prelude.{
  ℕ, zero, suc, ◌%◌, ◌<◌, ◌≤◌, List, [], ◌∷◌, ◌≡◌, Bool, true, false, none, some,
}
use flow_dpi.Prelude.Family.{update}
use flow_dpi.Types.{FiveTuple, tuple}
use flow_dpi.Rules.{BlockRules}
use flow_dpi.Queue.{BoundedQueue, new_queue, push, pop, close}
use flow_dpi.Engine.{process_parsed_packet}
use flow_dpi.Engine.State.{DpiEngine, new_engine}
use flow_dpi.Concurrent.{WorkItem, at_least_one}

-- The load balancer: in its loop, or behind it and about to close queue `k`.
pub data Phase : Type 0 where
  routing : Phase
  closing : ℕ → Phase

-- What a worker does: about to call pop, with an item that it took, or behind its loop.
pub data Activity : Type 0 where
  popping : Activity
  holding : WorkItem → Activity
  ended : Activity

-- A worker: its queue, its engine, and what it does.
pub record Worker : Type 0 where
  pub inbox : BoundedQueue WorkItem
  pub engine : DpiEngine
  pub activity : Activity

pub record System : Type 0 where
  pub pending : List WorkItem
  pub phase : Phase
  pub workers : ℕ → Worker

unfoldable pub new_worker : BlockRules → ℕ → Worker
new_worker rules queue_capacity = record {
  inbox = new_queue (at_least_one queue_capacity);
  engine = new_engine rules;
  activity = popping;
}

-- All threads are there, and nothing is routed.
unfoldable pub start : BlockRules → ℕ → List WorkItem → System
start rules queue_capacity items = record {
  pending = items;
  phase = routing;
  workers = λ i. new_worker rules queue_capacity;
}

module _ (hash : FiveTuple → ℕ) (n : ℕ) where
  -- The worker that an item is routed to.
  abbrev pub target : WorkItem → ℕ
  target item = hash (tuple item.parsed) % n

  pub data Step : System → System → Type 0 where
    route :
        {s : System} (item : WorkItem) (rest : List WorkItem) (q : BoundedQueue WorkItem)
        → s.phase ≡ routing
        → s.pending ≡ item ∷ rest
        → push item (s.workers (target item)).inbox ≡ some (true, q)
        → Step s (record s {
          pending = rest;
          workers = update s.workers (target item) (record (s.workers (target item)) { inbox = q });
        })
    break_off :
        {s : System} (item : WorkItem) (rest : List WorkItem) (q : BoundedQueue WorkItem)
        → s.phase ≡ routing
        → s.pending ≡ item ∷ rest
        → push item (s.workers (target item)).inbox ≡ some (false, q)
        → Step s (record s {
          pending = rest;
          phase = closing 0;
          workers = update s.workers (target item) (record (s.workers (target item)) { inbox = q });
        })
    finish :
        {s : System} → s.phase ≡ routing → s.pending ≡ [] → Step s (record s { phase = closing 0 })
    close_next :
        {s : System} (k : ℕ)
        → s.phase ≡ closing k
        → k < n
        → Step s (record s {
          phase = closing (suc k);
          workers = update s.workers k (record (s.workers k) { inbox = close (s.workers k).inbox });
        })
    take :
        {s : System} (i : ℕ) (item : WorkItem) (q : BoundedQueue WorkItem)
        → i < n
        → (s.workers i).activity ≡ popping
        → pop (s.workers i).inbox ≡ some (some item, q)
        → Step s (record s {
          workers =
              update s.workers i (record (s.workers i) { inbox = q; activity = holding item });
        })
    process :
        {s : System} (i : ℕ) (item : WorkItem) (engine : DpiEngine)
        → i < n
        → (s.workers i).activity ≡ holding item
        → process_parsed_packet (s.workers i).engine item.raw.bytes item.parsed item.elapsed
          ≡ some engine
        → Step s (record s {
          workers =
              update s.workers i (record (s.workers i) { engine = engine; activity = popping });
        })
    end :
        {s : System} (i : ℕ) (q : BoundedQueue WorkItem)
        → i < n
        → (s.workers i).activity ≡ popping
        → pop (s.workers i).inbox ≡ some (none, q)
        → Step s (record s {
          workers = update s.workers i (record (s.workers i) { inbox = q; activity = ended });
        })

  -- Any number of steps, of any threads in any order.
  pub data Run : System → ℕ → System → Type 0 where
    stay : {s : System} → Run s 0 s
    then : {s s' s'' : System} {steps : ℕ} → Run s steps s' → Step s' s'' → Run s (suc steps) s''

  -- The load balancer has closed all queues and joined all workers.
  pub record IsJoined (s : System) : Type 0 where
    pub closed_all : (k : ℕ) × (s.phase ≡ closing k) × (n ≤ k)
    pub all_ended : (i : ℕ) → i < n → (s.workers i).activity ≡ ended
