-- ===== src/Concurrent.antt =====
-- src/concurrent_dpi_engine.cpp: packets are parsed in order and routed by the hash of their tuple;
-- each worker takes its own packets in that order, as its queue keeps it, into an engine of its own.
pub mod Reports
pub mod Delta
pub mod Gather
pub mod Shards
pub mod Agreement
pub mod Threads
pub mod Safety
pub mod Segments
pub mod File
mod Tests
use flow_dpi.Prelude.{
  ℕ, zero, suc, ◌+◌, ◌%◌, ◌^◌, List, [], ◌∷◌, ◌++◌, Bool, true, false, not, ◌&&◌, ◌||◌, Option,
  none, some, ltb, ◌==◌, if◌then◌else◌,
}
use flow_dpi.Prelude.Fallible.{◌>>=◌}
use flow_dpi.Types.{RawPacket, ParsedPacket, FiveTuple, tuple}
use flow_dpi.Rules.{BlockRules}
use flow_dpi.Packet.{parse}
use flow_dpi.Engine.{process_parsed_packet}
use flow_dpi.Engine.State.{EngineReport, empty_report, add64, DpiEngine, new_engine}

-- `WorkItem`, with what the clock measures for it.
pub record WorkItem : Type 0 where
  pub raw : RawPacket
  pub parsed : ParsedPacket
  pub elapsed : ℕ

-- `mergeReportInto`
unfoldable pub merge_report_into : EngineReport → EngineReport → EngineReport
merge_report_into dst src = record {
  total_packets = add64 dst.total_packets src.total_packets;
  total_flows = add64 dst.total_flows src.total_flows;
  blocked_flows = add64 dst.blocked_flows src.blocked_flows;
  blocked_packets = add64 dst.blocked_packets src.blocked_packets;
  blocked_entries = dst.blocked_entries ++ src.blocked_entries;
  observed_snis = dst.observed_snis ++ src.observed_snis;
  packet_latencies_ns = dst.packet_latencies_ns ++ src.packet_latencies_ns;
}

-- The number of workers that the constructor keeps.
abbrev pub at_least_one : ℕ → ℕ
at_least_one n = if ltb 0 n then n else 1

-- The loop of the load balancer, up to the routing.
unfoldable pub keep_item : RawPacket → ℕ → Bool × ParsedPacket → List WorkItem → List WorkItem
keep_item raw elapsed (accepted, parsed) items =
    if not accepted || not parsed.has_ip
    then items
    else record { raw = raw; parsed = parsed; elapsed = elapsed } ∷ items

unfoldable pub work_items : List (RawPacket × ℕ) → Option (List WorkItem)
work_items [] = some []
work_items ((raw, elapsed) ∷ rest) = parse raw.bytes >>= λ parsed.
    work_items rest >>= λ items. some (keep_item raw elapsed parsed items)

-- The loop of a worker.
unfoldable pub process_items : DpiEngine → List WorkItem → Option DpiEngine
process_items engine [] = some engine
process_items engine (item ∷ rest) =
    process_parsed_packet engine item.raw.bytes item.parsed item.elapsed >>= λ engine'.
    process_items engine' rest

-- The worker is chosen by a hash of the tuple, whichever it is; the program's is `five_tuple_hash`.
module _ (hash : FiveTuple → ℕ) where
  -- The items that are routed to one worker of `n`, in their order.
  unfoldable pub routed : ℕ → ℕ → List WorkItem → List WorkItem
  routed n shard [] = []
  routed n shard (item ∷ rest) =
      if hash (tuple item.parsed) % n == shard
      then item ∷ routed n shard rest
      else routed n shard rest

  -- The workers from `shard` on, and their reports merged behind the others.
  unfoldable pub run_shards :
      BlockRules → List WorkItem → ℕ → ℕ → ℕ → EngineReport → Option EngineReport
  run_shards rules items n shard zero merged = some merged
  run_shards rules items n shard (suc left) merged =
      process_items (new_engine rules) (routed n shard items) >>= λ engine.
      run_shards rules items n (suc shard) left (merge_report_into merged engine.report)

  -- `processFile` of the packets that the reader gives, when the vectors have room for the workers and
  -- their threads start; Concurrent/File has what comes of it when not.
  unfoldable pub process_concurrently : BlockRules → ℕ → List (RawPacket × ℕ) → Option EngineReport
  process_concurrently rules num_workers raws =
      let n = at_least_one num_workers in
      work_items raws >>= λ items. run_shards rules items n 0 n empty_report
