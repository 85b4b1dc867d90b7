-- ===== src/Concurrent/Agreement.antt =====
-- The concurrent engine against the sequential one: on the same packets the reports agree.
use flow_dpi.Prelude.{
  some_injective, ℕ, zero, suc, ◌%◌, ◌<◌, ◌≡◌, refl, sym, ap, ◌∙◌, subst, List, [], ◌∷◌, Bool, true,
  false, not, some, ◌==◌, ==_refl, ==_iff, Bool-cases, inl, inr, All, arith, if◌then◌else◌,
}
use flow_dpi.Prelude.Fallible.{◌>>=◌, bind-some}
use flow_dpi.Types.{RawPacket, ParsedPacket, FiveTuple, tuple}
use flow_dpi.Rules.{BlockRules}
use flow_dpi.Packet.{parse}
use flow_dpi.Packet.Bounds.{parse_safe}
use flow_dpi.Engine.{process_parsed_packet, process_packet, process_packets}
use flow_dpi.Engine.State.{EngineReport, empty_report, DpiEngine, new_engine}
use flow_dpi.Concurrent.{
  WorkItem, keep_item, work_items, process_items, routed, run_shards, process_concurrently,
  at_least_one, merge_report_into,
}
use flow_dpi.Engine.Run.{process_packet-refused, process_packet-accepted, process_packet-other}
use flow_dpi.Concurrent.Safety.{IsParsed, work_items-All}
use flow_dpi.Concurrent.Reports.{Agree, Agree-refl, IsWord64}
use flow_dpi.Prelude.Family.{update, update_other}
use flow_dpi.Concurrent.Gather.{Workers, gather, gather-empty}
use flow_dpi.Concurrent.Shards.{InStep, process_parsed_packet-InStep}

-- The first packet is skipped by both, or is the first item.
first_packet :
    (engine : DpiEngine) (raw : RawPacket) (elapsed : ℕ) (rest : List (RawPacket × ℕ))
    (items : List WorkItem) (accepted : Bool) (p : ParsedPacket)
    → parse raw.bytes ≡ some (accepted, p)
    → ((engine' : DpiEngine) → process_packets engine' rest ≡ process_items engine' items)
    → (process_packet engine raw elapsed >>= λ engine'. process_packets engine' rest)
      ≡ process_items engine (keep_item raw elapsed (accepted, p) items)
unfolding keep_item process_items
first_packet engine raw elapsed rest items false p f ih =
    bind-some _ (process_packet-refused engine raw elapsed false p f refl) (ih engine)
first_packet engine raw elapsed rest items true p f ih = elim (Bool-cases p.has_ip) [
  | inr other ↦
      simp other
        (bind-some _ (process_packet-other engine raw elapsed true p f refl other) (ih engine))
  | inl ip ↦
      (λ i. process_packet-accepted engine raw elapsed true p f refl i >>= λ engine'.
      process_packets engine' rest)
      ∙ (λ i. process_parsed_packet engine raw.bytes p elapsed >>= λ engine'. ih engine' i)
      ∙ sym (
          ap
            (λ b. process_items engine (
              if not b then items else record { raw = raw; parsed = p; elapsed = elapsed } ∷ items))
            ip)
]

-- The items of a run are the packets that `processPacket` does not skip.
process_packets-work_items :
    (engine : DpiEngine) (raws : List (RawPacket × ℕ)) (items : List WorkItem)
    → work_items raws ≡ some items
    → process_packets engine raws ≡ process_items engine items
unfolding process_packets work_items process_items
process_packets-work_items engine [] items e = ap (process_items engine) (some_injective e)
process_packets-work_items engine ((raw, elapsed) ∷ rest) items e =
    let (accepted, p, f, _) = parse_safe raw.bytes in
    let (items', g, _) = work_items-All rest in
    let kept : keep_item raw elapsed (accepted, p) items' ≡ items =
      some_injective (sym (bind-some _ f (bind-some _ g refl)) ∙ e) in
    first_packet engine raw elapsed rest items' accepted p f
      (λ engine'. process_packets-work_items engine' rest items' g)
    ∙ ap (process_items engine) kept

module _ (hash : FiveTuple → ℕ) (n : ℕ) (some_worker : 0 < n) (rules : BlockRules) where
  new_engines-InStep : InStep hash n some_worker rules (new_engine rules) (λ i. new_engine rules)
  new_engines-InStep = record {
    flows = λ t. refl;
    one_rules = refl;
    their_rules = λ i. refl;
    tidy = tt;
    one_word = zeros;
    their_words = λ i. zeros;
    reports =
        subst (λ r. Agree empty_report r)
          (sym (gather-empty (λ i. new_engine rules) 0 n empty_report zeros (λ i. refl)))
          (Agree-refl empty_report);
  }
    where
      zeros : IsWord64 empty_report
      zeros = record {
        packets = omega arith;
        flows = omega arith;
        blocked_flows = omega arith;
        blocked_packets = omega arith;
      }

  -- A worker that takes an item, or none, and goes on with the items that are routed to it.
  routed-cons :
      (workers : Workers) (worker' : DpiEngine) (item : WorkItem) (rest : List WorkItem) (i : ℕ)
      → process_parsed_packet
          (workers (hash (tuple item.parsed) % n))
          item.raw.bytes
          item.parsed
          item.elapsed
        ≡ some worker'
      → process_items (workers i) (routed hash n i (item ∷ rest))
        ≡ process_items
            (update workers (hash (tuple item.parsed) % n) worker' i)
            (routed hash n i rest)
  unfolding routed process_items
  routed-cons workers worker' item rest i e =
      elim (Bool-cases (hash (tuple item.parsed) % n == i)) [
        | inl here ↦ subst Taken ((==_iff (hash (tuple item.parsed) % n) i).0 here) own
        | inr elsewhere ↦
            rw
              (
                elsewhere,
                update_other workers (hash (tuple item.parsed) % n) i worker'
                    (apart (hash (tuple item.parsed) % n) i elsewhere),
              )
              refl
      ]
    where
      apart : (a b : ℕ) → (a == b) ≡ false → (b == a) ≡ false
      apart a b h = ground arith

      Taken : ℕ → Type 0
      Taken i =
          process_items (workers i) (routed hash n i (item ∷ rest))
          ≡ process_items (update workers (hash (tuple item.parsed) % n) worker' i)
              (routed hash n i rest)

      own : Taken (hash (tuple item.parsed) % n)
      own = rw (==_refl (hash (tuple item.parsed) % n)) (bind-some _ e refl)

  -- All items, by one engine and by the workers.
  process_items-InStep :
      (engine : DpiEngine) (workers : Workers) (items : List WorkItem)
      → InStep hash n some_worker rules engine workers
      → All IsParsed items
      → (engine' : DpiEngine) × (workers' : Workers) × (process_items engine items ≡ some engine')
        × ((i : ℕ) → process_items (workers i) (routed hash n i items) ≡ some (workers' i))
        × InStep hash n some_worker rules engine' workers'
  unfolding process_items routed
  process_items-InStep engine workers [] s all = (engine, workers, refl, (λ i. refl), s)
  process_items-InStep engine workers (item ∷ rest) s (good, all) =
      let (middle, worker', e, f, s') =
        process_parsed_packet-InStep hash n some_worker rules engine workers item s good in
      let (last, workers', g, h, s'') =
        process_items-InStep middle (update workers (hash (tuple item.parsed) % n) worker') rest s'
          all in
      (last, workers', bind-some _ e g, (λ i. routed-cons workers worker' item rest i f ∙ h i), s'')

  run_shards-gather :
      (items : List WorkItem) (workers : Workers) (k left : ℕ) (merged : EngineReport)
      → ((i : ℕ) → process_items (new_engine rules) (routed hash n i items) ≡ some (workers i))
      → run_shards hash rules items n k left merged ≡ some (gather workers k left merged)
  unfolding run_shards
  run_shards-gather items workers k zero merged done = refl
  run_shards-gather items workers k (suc left) merged done = bind-some _ (done k) (
      run_shards-gather items workers (suc k) left (merge_report_into merged (workers k).report)
        done)

pub at_least_one-pos : (n : ℕ) → 0 < at_least_one n
at_least_one-pos n = ground arith

-- Every worker comes through its part of the items, and the merge of their reports is the report.
pub workers_finish :
    (hash : FiveTuple → ℕ) (rules : BlockRules) (num_workers : ℕ) (raws : List (RawPacket × ℕ))
    (items : List WorkItem)
    → work_items raws ≡ some items
    → (engine : DpiEngine) × (final : Workers) × (process_packets (new_engine rules) raws
        ≡ some engine)
      × ((i : ℕ)
          → process_items (new_engine rules) (routed hash (at_least_one num_workers) i items)
            ≡ some (final i))
      × (process_concurrently hash rules num_workers raws
          ≡ some (gather final 0 (at_least_one num_workers) empty_report))
      × Agree engine.report (gather final 0 (at_least_one num_workers) empty_report)
unfolding process_concurrently
workers_finish hash rules num_workers raws items e =
    let n = at_least_one num_workers in
    let some_worker = at_least_one-pos num_workers in
    let (items', e', all) = work_items-All raws in
    let all_parsed = subst (All IsParsed) (some_injective (sym e' ∙ e)) all in
    let (engine, final, f, g, s) =
      process_items-InStep hash n some_worker rules (new_engine rules) (λ i. new_engine rules) items
        (new_engines-InStep hash n some_worker rules) all_parsed in
    (
      engine,
      final,
      process_packets-work_items (new_engine rules) raws items e ∙ f,
      g,
      bind-some _ e (run_shards-gather hash n some_worker rules items final 0 n empty_report g),
      s.reports,
    )

-- On any packets, with any rules, any number of workers and any hash, the concurrent engine's
-- report agrees with that of the sequential engine: the same counters, and the same entries,
-- names and times up to their order.
process_concurrently-Agree :
    (hash : FiveTuple → ℕ) (rules : BlockRules) (num_workers : ℕ) (raws : List (RawPacket × ℕ))
    → (engine : DpiEngine) × (report : EngineReport) × (process_packets (new_engine rules) raws
        ≡ some engine)
      × (process_concurrently hash rules num_workers raws ≡ some report)
      × Agree engine.report report
process_concurrently-Agree hash rules num_workers raws =
    let (items, e, _) = work_items-All raws in
    let (engine, final, f, _, whole, agree) = workers_finish hash rules num_workers raws items e in
    (engine, _, f, whole, agree)
