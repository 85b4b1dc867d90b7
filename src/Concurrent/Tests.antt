-- ===== src/Concurrent/Tests.antt =====
-- The concurrent engine on two frames of one flow and a hash by the port.
use flow_dpi.Prelude.{ℕ, ◌+◌, ◌*◌, ◌≤◌, ◌≡◌, ◌⊎◌, List, [], ◌∷◌, length, some}
use flow_dpi.Types.{RawPacket, FiveTuple}
use flow_dpi.Rules.{no_rules}
use flow_dpi.Bench.{build_tcp_frame}
use flow_dpi.Engine.{process_packets}
use flow_dpi.Engine.State.{EngineReport, empty_report, DpiEngine, new_engine}
use flow_dpi.Concurrent.{WorkItem, work_items, at_least_one, process_concurrently}
use flow_dpi.Concurrent.Gather.{gather}
use flow_dpi.Concurrent.Reports.{Agree}
use flow_dpi.Concurrent.Safety.{work_items-All}
use flow_dpi.Concurrent.Threads.{System, start, Step, Run, stay, IsJoined}
use flow_dpi.Concurrent.Threads.Outcome.{Run-Agree}
use flow_dpi.Concurrent.Threads.Ending.{Run-ends, Run-joins}

abbrev raw : RawPacket
raw = record {
  header = record { ts_sec = 0; ts_usec = 0; incl_len = 56; orig_len = 56 };
  bytes = build_tcp_frame (b'h' ∷ b'i' ∷ []);
}

abbrev by_port : FiveTuple → ℕ
by_port t = t.src_port + t.dst_port

-- Three workers with queues for one item, the packets above, and the threads run to their end.
abbrev two : List (RawPacket × ℕ)
two = (raw, 5) ∷ (raw, 6) ∷ []

abbrev two_items : List WorkItem
two_items = (work_items-All two).0

items_of_two : work_items two ≡ some two_items
items_of_two = (work_items-All two).1

two_run :
    (steps : ℕ) × (s : System) × Run by_port (at_least_one 3) (start no_rules 1 two_items) steps s
    × IsJoined by_port (at_least_one 3) s
two_run =
    Run-joins by_port no_rules 3 1 two two_items 0 (start no_rules 1 two_items) items_of_two stay

Run-joins_example :
    (more : ℕ) × (s' : System) × Run by_port (at_least_one 3) (start no_rules 1 two_items) more s'
    × IsJoined by_port (at_least_one 3) s'
Run-joins_example =
    Run-joins by_port no_rules 3 1 two two_items 0 (start no_rules 1 two_items) items_of_two stay

Run-Agree_example :
    (engine : DpiEngine) × (report : EngineReport) × (gather
        (λ i. (two_run.1.workers i).engine)
        0
        (at_least_one 3)
        empty_report
      ≡ report)
    × (process_concurrently by_port no_rules 3 two ≡ some report)
    × (process_packets (new_engine no_rules) two ≡ some engine)
    × Agree engine.report report
Run-Agree_example =
    Run-Agree by_port no_rules 3 1 two two_items two_run.0 two_run.1 items_of_two two_run.2
      two_run.3

Run-ends_example :
    (two_run.0 ≤ 3 * length two_items + (2 * at_least_one 3 + 1))
    × (IsJoined by_port (at_least_one 3) two_run.1
        ⊎ ((s' : System) × Step by_port (at_least_one 3) two_run.1 s'))
Run-ends_example =
    Run-ends by_port no_rules 3 1 two two_items two_run.0 two_run.1 items_of_two two_run.2
