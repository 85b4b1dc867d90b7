-- ===== src/Concurrent/Safety.antt =====
-- No packet makes a worker fault, and the merged report counts each packet once.
use flow_dpi.Prelude.{
  length-append, subst, sym, if◌then◌else◌, ℕ, zero, suc, ◌%◌, ◌^◌, ◌≡◌, refl, List, [], ◌∷◌,
  length, Bool, true, false, not, ◌||◌, some, All, arith, Bool-cases, inl, inr, ◌==◌,
}
use flow_dpi.Prelude.Fallible.{bind-some}
use flow_dpi.Types.{RawPacket, ParsedPacket, FiveTuple, tuple}
use flow_dpi.Rules.{BlockRules}
use flow_dpi.Packet.Shape.{IsWellFormed}
use flow_dpi.Packet.Bounds.{parse_safe}
use flow_dpi.Engine.State.{EngineReport, empty_report, DpiEngine, new_engine}
use flow_dpi.Engine.Invariant.{
  IsValid, process_parsed_packet-Processes, engine_after, engine_after-IsValid,
}
use flow_dpi.Engine.Run.{new_engine-IsValid}
use flow_dpi.Concurrent.{
  WorkItem, keep_item, work_items, process_items, routed, run_shards, process_concurrently,
  at_least_one, merge_report_into,
}

-- What the load balancer hands to a worker: a packet above IPv4, parsed.
abbrev pub IsParsed : WorkItem → Type 0
IsParsed item = IsWellFormed item.raw.bytes item.parsed × (item.parsed.has_ip ≡ true)

keep_item-All :
    (raw : RawPacket) (elapsed : ℕ) (accepted : Bool) (p : ParsedPacket) (items : List WorkItem)
    → (accepted ≡ true → IsWellFormed raw.bytes p)
    → All IsParsed items
    → All IsParsed (keep_item raw elapsed (accepted, p) items)
unfolding keep_item
keep_item-All raw elapsed false p items w all = all
keep_item-All raw elapsed true p items w all = elim (Bool-cases p.has_ip) [
  | inl ip ↦
      subst
        (λ b. All IsParsed (
          if not true || not b
          then items
          else record { raw = raw; parsed = p; elapsed = elapsed } ∷ items))
        (sym ip) ((w refl, ip), all)
  | inr other ↦
      subst
        (λ b. All IsParsed (
          if not true || not b
          then items
          else record { raw = raw; parsed = p; elapsed = elapsed } ∷ items))
        (sym other) all
]

pub work_items-All :
    (raws : List (RawPacket × ℕ))
    → (items : List WorkItem) × (work_items raws ≡ some items) × All IsParsed items
unfolding work_items
work_items-All [] = ([], refl, tt)
work_items-All ((raw, elapsed) ∷ rest) =
    let (accepted, p, e, w) = parse_safe raw.bytes in
    let (items, f, all) = work_items-All rest in
    (
      keep_item raw elapsed (accepted, p) items,
      bind-some _ e (bind-some _ f refl),
      keep_item-All raw elapsed accepted p items w all,
    )

process_items-IsValid :
    (engine : DpiEngine) (items : List WorkItem)
    → IsValid engine
    → All IsParsed items
    → (engine' : DpiEngine) × (process_items engine items ≡ some engine') × IsValid engine'
unfolding process_items
process_items-IsValid engine [] v all = (engine, refl, v)
process_items-IsValid engine (item ∷ rest) v ((w, ip), all) =
    let (flow, report, e, tidy, verdict) =
      process_parsed_packet-Processes engine item.raw.bytes item.parsed item.elapsed v.tidy w ip in
    let (last, f, v') =
      process_items-IsValid (engine_after engine item.parsed item.elapsed flow report) rest
        (engine_after-IsValid engine item.raw.bytes item.parsed item.elapsed flow report v tidy
          verdict)
        all in
    (last, bind-some _ e f, v')

-- What the merged report promises: the counters of entries and of packets agree with its lists.
pub record IsMerged (report : EngineReport) : Type 0 where
  pub entries : report.blocked_flows ≡ length report.blocked_entries % 2 ^ 64
  pub packets : report.total_packets ≡ length report.packet_latencies_ns % 2 ^ 64

merge-IsMerged :
    (dst src : EngineReport) → IsMerged dst → IsMerged src → IsMerged (merge_report_into dst src)
unfolding merge_report_into
merge-IsMerged dst src d s = record {
  entries =
      omega (arith, d.entries, s.entries, length-append dst.blocked_entries src.blocked_entries);
  packets =
      omega (
        arith,
        d.packets,
        s.packets,
        length-append dst.packet_latencies_ns src.packet_latencies_ns,
      );
}

module _ (hash : FiveTuple → ℕ) where
  routed-All :
      (n shard : ℕ) (items : List WorkItem)
      → All IsParsed items
      → All IsParsed (routed hash n shard items)
  unfolding routed
  routed-All n shard [] all = tt
  routed-All n shard (item ∷ rest) all = elim (Bool-cases (hash (tuple item.parsed) % n == shard)) [
    | inl mine ↦ rw mine (all.0, routed-All n shard rest all.1)
    | inr other ↦ rw other (routed-All n shard rest all.1)
  ]

  run_shards-IsMerged :
      (rules : BlockRules) (items : List WorkItem) (n shard left : ℕ) (merged : EngineReport)
      → All IsParsed items
      → IsMerged merged
      → (report : EngineReport) × (run_shards hash rules items n shard left merged ≡ some report)
        × IsMerged report
  unfolding run_shards
  run_shards-IsMerged rules items n shard zero merged all m = (merged, refl, m)
  run_shards-IsMerged rules items n shard (suc left) merged all m =
      let (engine, e, v) =
        process_items-IsValid (new_engine rules) (routed hash n shard items)
          (new_engine-IsValid rules) (routed-All n shard items all) in
      let (report, f, m') =
        run_shards-IsMerged rules items n (suc shard) left (merge_report_into merged engine.report)
          all
          (merge-IsMerged merged engine.report m
            (record { entries = v.entries; packets = v.packets })) in
      (report, bind-some _ e f, m')

  -- Whatever packets are read, the number of workers and the hash: no worker reads outside a
  -- buffer, all of them come to an end, and in the merged report the counters of blocked flows
  -- and of packets agree, modulo 2 ^ 64, with the lists of entries and of times.
  pub process_concurrently-IsMerged :
      (rules : BlockRules) (num_workers : ℕ) (raws : List (RawPacket × ℕ))
      → (report : EngineReport) × (process_concurrently hash rules num_workers raws ≡ some report)
        × IsMerged report
  unfolding process_concurrently
  process_concurrently-IsMerged rules num_workers raws =
      let n = at_least_one num_workers in
      let (items, e, all) = work_items-All raws in
      let (report, f, m) =
        run_shards-IsMerged rules items n 0 n empty_report all
          (record { entries = refl; packets = refl }) in
      (report, bind-some _ e f, m)
