-- ===== src/Engine/Invariant.antt =====
-- The engine between packets: its counters agree with its table, and no packet makes it fault.
use flow_dpi.Prelude.{
  ℕ, ◌+◌, ◌%◌, ◌^◌, ◌≡◌, refl, List, [], ◌∷◌, ◌++◌, length, length-append, Bool, true, false, not,
  ◌&&◌, some, Option, All, arith, Option-cases, inl, inr, ap, ◌∙◌, if◌then◌else◌, ◌≢◌,
}
use flow_dpi.Prelude.Fallible.{◌>>=◌}
use flow_dpi.Types.{ParsedPacket, FiveTuple, tuple}
use flow_dpi.Packet.Shape.{IsWellFormed}
use flow_dpi.Engine.{
  inspect, or_fresh, one_if_none, count_packet, process_parsed_packet, BlockedEntry,
}
use flow_dpi.Engine.State.{
  FlowState, fresh_flow, EngineReport, add64, find_flow, set_flow, DpiEngine,
}
use flow_dpi.Engine.Extract.{IsTidy}
use flow_dpi.Engine.Table.{
  bit, count_blocked, blocked_before, count_blocked-set_flow, length-set_flow, set_flow-All,
  find_flow-All,
}
use flow_dpi.Engine.Verdict.{Verdict, newly, inspect-Judges, entry}

-- Each flow is tidy, and the counters, which are uint64_t, count what the engine holds: the flows
-- of the table, the blocked ones among them, the entries of the report and the packets.
pub record IsValid (engine : DpiEngine) : Type 0 where
  pub tidy : All (λ e. IsTidy e.1) engine.flows
  pub total_flows : engine.report.total_flows ≡ length engine.flows % 2 ^ 64
  pub blocked_flows : engine.report.blocked_flows ≡ count_blocked engine.flows % 2 ^ 64
  pub entries : engine.report.blocked_flows ≡ length engine.report.blocked_entries % 2 ^ 64
  pub packets : engine.report.total_packets ≡ length engine.report.packet_latencies_ns % 2 ^ 64

-- The flow of a packet as it stands before it is looked into, and the report with the packet.
abbrev pub flow_before : DpiEngine → List ℕ → ParsedPacket → FlowState
flow_before engine bytes p =
    count_packet (or_fresh (tuple p) (find_flow (tuple p) engine.flows)) bytes

abbrev pub report_before : DpiEngine → ParsedPacket → EngineReport
report_before engine p = record (engine.report) {
  total_packets = add64 engine.report.total_packets 1;
  total_flows = add64 engine.report.total_flows (one_if_none (find_flow (tuple p) engine.flows));
}

-- The engine with the flow and the report that the packet leaves, and the time it took.
abbrev pub engine_after : DpiEngine → ParsedPacket → ℕ → FlowState → EngineReport → DpiEngine
engine_after engine p elapsed flow report = record engine {
  flows = set_flow (tuple p) flow engine.flows;
  report = record report { packet_latencies_ns = report.packet_latencies_ns ++ (elapsed ∷ []) };
}

count_packet-IsTidy :
    (flow : FlowState) (bytes : List ℕ) → IsTidy flow → IsTidy (count_packet flow bytes)
unfolding count_packet
count_packet-IsTidy flow bytes t = record {
  word = t.word;
  bounded = t.bounded;
  released = t.released;
}

fresh-IsTidy : (t : FiveTuple) → IsTidy (fresh_flow t)
fresh-IsTidy t = record { word = omega arith; bounded = omega arith; released = λ e. refl }

pub flow_before-IsTidy :
    (engine : DpiEngine) (bytes : List ℕ) (p : ParsedPacket)
    → All (λ e. IsTidy e.1) engine.flows
    → IsTidy (flow_before engine bytes p)
flow_before-IsTidy engine bytes p all = elim (Option-cases (find_flow (tuple p) engine.flows)) [
  | inl e ↦ rw e (count_packet-IsTidy (fresh_flow (tuple p)) bytes (fresh-IsTidy (tuple p)))
  | inr (f, e) ↦
      let (k, same, tidy) = find_flow-All (λ e. IsTidy e.1) (tuple p) engine.flows f all e in
      rw e (count_packet-IsTidy f bytes tidy)
]

flow_before-blocked :
    (engine : DpiEngine) (bytes : List ℕ) (p : ParsedPacket)
    → blocked_before (find_flow (tuple p) engine.flows) ≡ bit (flow_before engine bytes p).blocked
unfolding count_packet
flow_before-blocked engine bytes p = elim (Option-cases (find_flow (tuple p) engine.flows)) [
  | inl e ↦ rw e refl
  | inr (f, e) ↦ rw e refl
]

-- What an IPv4 packet does to the engine.
abbrev pub Processes : DpiEngine → List ℕ → ParsedPacket → ℕ → Option DpiEngine → Type 0
Processes engine bytes p elapsed m =
    (flow : FlowState) × (report : EngineReport) × (m
      ≡ some (engine_after engine p elapsed flow report))
    × IsTidy flow
    × Verdict engine.rules p (flow_before engine bytes p) flow (report_before engine p) report

pub process_parsed_packet-inspect :
    (engine : DpiEngine) (bytes : List ℕ) (p : ParsedPacket) (elapsed : ℕ) (flow : FlowState)
    (report : EngineReport)
    → p.has_ip ≡ true
    → inspect engine.rules (flow_before engine bytes p) (report_before engine p) p bytes
      ≡ some (flow, report)
    → process_parsed_packet engine bytes p elapsed
      ≡ some (engine_after engine p elapsed flow report)
unfolding process_parsed_packet ◌>>=◌
process_parsed_packet-inspect engine bytes p elapsed flow report ip e = simp (ip, e)

pub process_parsed_packet-Processes :
    (engine : DpiEngine) (bytes : List ℕ) (p : ParsedPacket) (elapsed : ℕ)
    → All (λ e. IsTidy e.1) engine.flows
    → IsWellFormed bytes p
    → p.has_ip ≡ true
    → Processes engine bytes p elapsed (process_parsed_packet engine bytes p elapsed)
process_parsed_packet-Processes engine bytes p elapsed all w ip =
    let (flow, report, e, tidy, verdict) =
      inspect-Judges engine.rules p (report_before engine p) (flow_before engine bytes p) bytes w
        (flow_before-IsTidy engine bytes p all) in
    (
      flow,
      report,
      process_parsed_packet-inspect engine bytes p elapsed flow report ip e,
      tidy,
      verdict,
    )

-- The counter of blocked flows goes up with the flows that are blocked.
count_step :
    (c c' r : ℕ) (before after : Bool)
    → (before ≡ true → after ≡ true)
    → c' + bit before ≡ c + bit after
    → r ≡ c % 2 ^ 64
    → (if after && not before then add64 r 1 else r) ≡ c' % 2 ^ 64
count_step c c' r true true up e f = omega arith
count_step c c' r false true up e f = omega arith
count_step c c' r false false up e f = omega arith
count_step c c' r true false up e f = absurd (false_ne_true (up refl))
  where
    false_ne_true : false ≢ true
    false_ne_true e = cc

-- So does the length of the report's list of entries.
entries_step :
    (old new : List BlockedEntry) (entry : BlockedEntry) (r : ℕ) (condemns : Bool)
    → new ≡ (if condemns then old ++ (entry ∷ []) else old)
    → r ≡ length old % 2 ^ 64
    → (if condemns then add64 r 1 else r) ≡ length new % 2 ^ 64
entries_step old new entry r true e f = rw e (omega (arith, length-append old (entry ∷ [])))
entries_step old new entry r false e f = rw e f

pub engine_after-IsValid :
    (engine : DpiEngine) (bytes : List ℕ) (p : ParsedPacket) (elapsed : ℕ) (flow : FlowState)
    (report : EngineReport)
    → IsValid engine
    → IsTidy flow
    → Verdict engine.rules p (flow_before engine bytes p) flow (report_before engine p) report
    → IsValid (engine_after engine p elapsed flow report)
engine_after-IsValid engine bytes p elapsed flow report v tidy verdict = record {
  tidy = set_flow-All (λ e. IsTidy e.1) (tuple p) flow engine.flows (λ k same. tidy) v.tidy;
  total_flows =
      verdict.rest.1
      ∙ rw (length-set_flow (tuple p) flow engine.flows, v.total_flows) (omega arith);
  blocked_flows =
      verdict.flows
      ∙ count_step (count_blocked engine.flows)
          (count_blocked (set_flow (tuple p) flow engine.flows)) engine.report.blocked_flows
          (flow_before engine bytes p).blocked flow.blocked (λ b. verdict.blocked ∙ rw b refl)
          (rw (← flow_before-blocked engine bytes p)
            (count_blocked-set_flow (tuple p) flow engine.flows))
          v.blocked_flows;
  entries =
      verdict.flows
      ∙ entries_step engine.report.blocked_entries report.blocked_entries
          (entry p flow verdict.entries.0) engine.report.blocked_flows
          (newly (flow_before engine bytes p) flow) verdict.entries.1 v.entries;
  packets =
      verdict.rest.0
      ∙ omega (
        arith,
        v.packets,
        length-append report.packet_latencies_ns (elapsed ∷ []),
        ap length verdict.rest.2,
      );
}
