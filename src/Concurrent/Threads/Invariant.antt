-- ===== src/Concurrent/Threads/Invariant.antt =====
-- Whatever the order of the threads' steps: each worker's engine, what it holds, what its queue
-- holds and what is still to be routed to it make up its part of the packets.
use flow_dpi.Prelude.{
  ℕ, ◌<◌, ◌≡◌, ◌≢◌, refl, sym, ap, ap₂, ◌∙◌, subst, List, [], ◌∷◌, ◌++◌, append_assoc, true, false,
  some, ◌==◌, ==_iff, if◌then◌else◌,
}
use flow_dpi.Prelude.Fallible.{bind-some}
use flow_dpi.Prelude.Family.{update, update_at}
use flow_dpi.Types.{FiveTuple}
use flow_dpi.Queue.{BoundedQueue, close}
use flow_dpi.Engine.{process_parsed_packet}
use flow_dpi.Engine.State.{DpiEngine}
use flow_dpi.Concurrent.{WorkItem, process_items, routed}
use flow_dpi.Concurrent.Gather.{Workers}
use flow_dpi.Concurrent.Threads.{
  Phase, routing, closing, Activity, popping, holding, ended, Worker, System, target,
}

abbrev pub in_hand : Activity → List WorkItem
in_hand popping = []
in_hand (holding item) = item ∷ []
in_hand ended = []

-- A worker is behind its loop only when its queue is drained.
abbrev pub IsOver : Activity → BoundedQueue WorkItem → Type 0
IsOver popping q = Unit
IsOver (holding item) q = Unit
IsOver ended q = (q.queue ≡ []) × (q.closed ≡ true)

IsOver-close : (a : Activity) (q : BoundedQueue WorkItem) → IsOver a q → IsOver a (close q)
unfolding close
IsOver-close popping q h = tt
IsOver-close (holding item) q h = tt
IsOver-close ended q (empty, shut) = (empty, refl)

IsOver-open :
    (a : Activity) (q q' : BoundedQueue WorkItem) → q.closed ≡ false → IsOver a q → IsOver a q'
IsOver-open popping q q' e h = tt
IsOver-open (holding item) q q' e h = tt
IsOver-open ended q q' e (empty, shut) = absurd (apart (sym shut ∙ e))
  where
    apart : true ≢ false
    apart e = cc

-- The queues are open while the load balancer routes, and those in front of `k` are closed when it
-- is about to close `k`, with nothing left to route.
abbrev pub IsInPhase : Phase → System → Type 0
IsInPhase routing s = (i : ℕ) → (s.workers i).inbox.closed ≡ false
IsInPhase (closing k) s = (s.pending ≡ []) × ((i : ℕ) → i < k → (s.workers i).inbox.closed ≡ true)

-- A worker that is replaced keeps its queue open or closed.
pub IsInPhase-update :
    (ph : Phase) (s : System) (j : ℕ) (w : Worker)
    → w.inbox.closed ≡ (s.workers j).inbox.closed
    → IsInPhase ph s
    → IsInPhase ph (record s { workers = update s.workers j w })
IsInPhase-update routing s j w e h =
    update_at (λ i v. v.inbox.closed ≡ false) s.workers j w (e ∙ h j) (λ i other. h i)
IsInPhase-update (closing k) s j w e (nothing, shut) = (
  nothing,
  update_at (λ i v. i < k → v.inbox.closed ≡ true) s.workers j w (λ lt. e ∙ shut j lt)
      (λ i other. shut i),
)

module _ (hash : FiveTuple → ℕ) (n : ℕ) (final : Workers) where
  -- Worker `i`, with what it has and what it will get, comes to `final i`.
  pub record IsOnCourse (i : ℕ) (w : Worker) (pending : List WorkItem) : Type 0 where
    pub work :
        process_items w.engine (in_hand w.activity ++ (w.inbox.queue ++ routed hash n i pending))
        ≡ some (final i)
    pub over : IsOver w.activity w.inbox
    pub room : 0 < w.inbox.capacity

  pub record IsSound (s : System) : Type 0 where
    pub courses : (i : ℕ) → IsOnCourse i (s.workers i) s.pending
    pub phased : IsInPhase s.phase s

  module _ (i : ℕ) (w : Worker) (pending : List WorkItem) (c : IsOnCourse i w pending) where
    pub take-IsOnCourse :
        (item : WorkItem) (items : List WorkItem)
        → w.activity ≡ popping
        → w.inbox.queue ≡ item ∷ items
        → IsOnCourse i
            (record w { inbox = record (w.inbox) { queue = items }; activity = holding item })
            pending
    take-IsOnCourse item items idle front = record {
      work =
          ap₂ (λ a q. process_items w.engine (in_hand a ++ (q ++ routed hash n i pending)))
            (sym idle) (sym front)
          ∙ c.work;
      over = tt;
      room = c.room;
    }

    pub process-IsOnCourse :
        (item : WorkItem) (engine : DpiEngine)
        → w.activity ≡ holding item
        → process_parsed_packet w.engine item.raw.bytes item.parsed item.elapsed ≡ some engine
        → IsOnCourse i (record w { engine = engine; activity = popping }) pending
    unfolding process_items
    process-IsOnCourse item engine busy e = record {
      work =
          sym (
            bind-some (λ engine'. process_items engine' (w.inbox.queue ++ routed hash n i pending))
              e refl)
          ∙ ap
              (λ a.
                process_items w.engine (in_hand a ++ (w.inbox.queue ++ routed hash n i pending)))
              (sym busy)
          ∙ c.work;
      over = tt;
      room = c.room;
    }

    pub end-IsOnCourse :
        w.activity ≡ popping
        → w.inbox.queue ≡ []
        → w.inbox.closed ≡ true
        → IsOnCourse i (record w { activity = ended }) pending
    end-IsOnCourse idle empty shut = record {
      work =
          ap (λ a. process_items w.engine (in_hand a ++ (w.inbox.queue ++ routed hash n i pending)))
            (sym idle)
          ∙ c.work;
      over = (empty, shut);
      room = c.room;
    }

    pub close-IsOnCourse : IsOnCourse i (record w { inbox = close w.inbox }) pending
    unfolding close
    close-IsOnCourse = record {
      work = c.work;
      over = IsOver-close w.activity w.inbox c.over;
      room = c.room;
    }

  module _ (i : ℕ) (w : Worker) (item : WorkItem) (rest : List WorkItem)
      (c : IsOnCourse i w (item ∷ rest)) where
    -- The worker that the item is routed to has it in its queue.
    pub route-IsOnCourse :
        target hash n item ≡ i
        → w.inbox.closed ≡ false
        → IsOnCourse i
            (record w { inbox = record (w.inbox) { queue = w.inbox.queue ++ (item ∷ []) } })
            rest
    unfolding routed
    route-IsOnCourse own still_open = record {
      work =
          ap (λ q. process_items w.engine (in_hand w.activity ++ q))
            (append_assoc w.inbox.queue (item ∷ []) (routed hash n i rest)
              ∙ ap (λ q. w.inbox.queue ++ q)
                  (sym (rw ((==_iff (target hash n item) i).1 own) refl)))
          ∙ c.work;
      over = IsOver-open w.activity w.inbox _ still_open c.over;
      room = c.room;
    }

    -- The others have nothing of it.
    pub pass-IsOnCourse : (target hash n item == i) ≡ false → IsOnCourse i w rest
    unfolding routed
    pass-IsOnCourse other = record {
      work =
          subst
            (λ b.
              process_items w.engine (
                in_hand w.activity
                ++ (w.inbox.queue
                    ++ (if b then item ∷ routed hash n i rest else routed hash n i rest)))
              ≡ some (final i))
            other c.work;
      over = c.over;
      room = c.room;
    }
