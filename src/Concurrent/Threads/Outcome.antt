-- ===== src/Concurrent/Threads/Outcome.antt =====
-- What the threads have computed when all of them are joined.
use flow_dpi.Prelude.{
  ℕ, zero, suc, ◌+◌, ◌<◌, ◌≡◌, ◌≢◌, refl, sym, ap, ap₂, ◌∙◌, subst, List, [], ◌++◌, some,
  some_injective, arith,
}
use flow_dpi.Types.{FiveTuple, RawPacket}
use flow_dpi.Queue.{BoundedQueue, push}
use flow_dpi.Queue.Traces.{push-refused}
use flow_dpi.Rules.{BlockRules}
use flow_dpi.Engine.{process_packets}
use flow_dpi.Engine.State.{DpiEngine, EngineReport, new_engine, empty_report}
use flow_dpi.Concurrent.{
  WorkItem, work_items, process_items, routed, at_least_one, process_concurrently,
  merge_report_into, false,
}
use flow_dpi.Concurrent.Agreement.{workers_finish}
use flow_dpi.Concurrent.Reports.{Agree}
use flow_dpi.Concurrent.Gather.{Workers, gather}
use flow_dpi.Concurrent.Threads.{ended, Worker, System, start, Run, IsJoined, routing}
use flow_dpi.Concurrent.Threads.Invariant.{IsInPhase, IsOver, IsOnCourse, IsSound, in_hand}
use flow_dpi.Concurrent.Threads.Preserved.{no_break, Run-IsSound, start-IsSound}

gather_eq :
    (a b : Workers) (k left : ℕ) (merged : EngineReport)
    → ((i : ℕ) → i < k + left → a i ≡ b i)
    → gather a k left merged ≡ gather b k left merged
gather_eq a b k zero merged same = refl
gather_eq a b k (suc left) merged same =
    ap (λ (w : DpiEngine). gather a (suc k) left (merge_report_into merged w.report))
      (same k (omega arith))
    ∙ gather_eq a b (suc k) left _ (λ i lt. same i (omega (arith, lt)))

-- A worker behind its loop has nothing left to do.
ended-final :
    (hash : FiveTuple → ℕ) (n : ℕ) (final : Workers) (i : ℕ) (w : Worker)
    → IsOnCourse hash n final i w []
    → w.activity ≡ ended
    → w.engine ≡ final i
unfolding process_items routed
ended-final hash n final i w c over =
    let (empty, shut) = subst (λ a. IsOver a w.inbox) over c.over in
    some_injective (
      ap₂ (λ a q. process_items w.engine (in_hand a ++ (q ++ routed hash n i []))) (sym over)
        (sym empty)
      ∙ c.work)

joined-final :
    (hash : FiveTuple → ℕ) (n : ℕ) (final : Workers) (s : System)
    → IsSound hash n final s
    → IsJoined hash n s
    → (i : ℕ) → i < n
    → (s.workers i).engine ≡ final i
joined-final hash n final s sound joined i lt =
    let (k, ph, _) = joined.closed_all in
    let nothing = (subst (λ p. IsInPhase p s) ph sound.phased).0 in
    ended-final hash n final i (s.workers i)
      (subst (IsOnCourse hash n final i (s.workers i)) nothing (sound.courses i))
      (joined.all_ended i lt)

-- Whatever the order of the steps of the load balancer and the workers, and whatever the capacity
-- of the queues: when all threads are joined, the merge of the workers' reports is the report of
-- process_concurrently, and it agrees with the report of the sequential engine.
pub Run-Agree :
    (hash : FiveTuple → ℕ) (rules : BlockRules) (num_workers queue_capacity : ℕ)
    (raws : List (RawPacket × ℕ)) (items : List WorkItem) (steps : ℕ) (s : System)
    → work_items raws ≡ some items
    → Run hash (at_least_one num_workers) (start rules queue_capacity items) steps s
    → IsJoined hash (at_least_one num_workers) s
    → (engine : DpiEngine) × (report : EngineReport) × (gather
          (λ i. (s.workers i).engine)
          0
          (at_least_one num_workers)
          empty_report
        ≡ report)
      × (process_concurrently hash rules num_workers raws ≡ some report)
      × (process_packets (new_engine rules) raws ≡ some engine)
      × Agree engine.report report
Run-Agree hash rules num_workers queue_capacity raws items steps s e run joined =
    let n = at_least_one num_workers in
    let (engine, final, f, done, whole, agree) =
      workers_finish hash rules num_workers raws items e in
    let sound =
      Run-IsSound hash n final run (start-IsSound hash n final rules queue_capacity items done) in
    (
      engine,
      gather final 0 n empty_report,
      gather_eq (λ i. (s.workers i).engine) final 0 n empty_report
          (λ i lt. joined-final hash n final s sound joined i (omega (arith, lt))),
      whole,
      f,
      agree,
    )

-- While the load balancer routes, no push fails, so its loop is never broken off.
pub Run-unbroken :
    (hash : FiveTuple → ℕ) (rules : BlockRules) (num_workers queue_capacity : ℕ)
    (raws : List (RawPacket × ℕ)) (items : List WorkItem) (steps : ℕ) (s : System)
    → work_items raws ≡ some items
    → Run hash (at_least_one num_workers) (start rules queue_capacity items) steps s
    → s.phase ≡ routing
    → (i : ℕ) (item : WorkItem) (q : BoundedQueue WorkItem)
    → push item (s.workers i).inbox ≢ some (false, q)
Run-unbroken hash rules num_workers queue_capacity raws items steps s e run ph i item q refused =
    let n = at_least_one num_workers in
    let (engine, final, f, done, whole, agree) =
      workers_finish hash rules num_workers raws items e in
    let sound =
      Run-IsSound hash n final run (start-IsSound hash n final rules queue_capacity items done) in
    no_break hash n final s sound i ph (push-refused _ q item refused).1
