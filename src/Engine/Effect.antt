-- ===== src/Engine/Effect.antt =====
-- What one IPv4 packet changes in the table and in the report.
use flow_dpi.Prelude.{ℕ, ◌≡◌, refl, List, [], ◌∷◌, ◌++◌, true, false, some}
use flow_dpi.Types.{FiveTuple, ParsedPacket, tuple}
use flow_dpi.Packet.Shape.{IsWellFormed}
use flow_dpi.Engine.{process_parsed_packet}
use flow_dpi.Engine.State.{FlowState, EngineReport, tuple_eq, find_flow, DpiEngine}
use flow_dpi.Engine.Table.{find_flow-set_flow, find_flow-set_flow_other}
use flow_dpi.Engine.Verdict.{Verdict}
use flow_dpi.Engine.Invariant.{
  IsValid, flow_before, report_before, engine_after, process_parsed_packet-Processes,
}

-- An accepted IPv4 packet in a valid engine: its own flow is in the table and judged, that is, it
-- is blocked exactly when it was, or an address, a port or its name matches a rule, and the
-- counters and lists of the report follow from that; every other flow and the rules stay as they
-- were, and one reading of the clock is added.
pub process_parsed_packet-Verdict :
    (engine : DpiEngine) (bytes : List ℕ) (p : ParsedPacket) (elapsed : ℕ)
    → IsValid engine
    → IsWellFormed bytes p
    → p.has_ip ≡ true
    → (engine' : DpiEngine) × (flow : FlowState) × (report : EngineReport) × (process_parsed_packet
          engine bytes p elapsed
        ≡ some engine')
      × (find_flow (tuple p) engine'.flows ≡ some flow)
      × Verdict engine.rules p (flow_before engine bytes p) flow (report_before engine p) report
      × (engine'.report
          ≡ record report { packet_latencies_ns = report.packet_latencies_ns ++ (elapsed ∷ []) })
      × (engine'.rules ≡ engine.rules)
      × ((u : FiveTuple)
          → tuple_eq (tuple p) u ≡ false
          → find_flow u engine'.flows ≡ find_flow u engine.flows)
process_parsed_packet-Verdict engine bytes p elapsed v w ip =
    let (flow, report, e, tidy, verdict) =
      process_parsed_packet-Processes engine bytes p elapsed v.tidy w ip in
    (
      engine_after engine p elapsed flow report,
      flow,
      report,
      e,
      find_flow-set_flow (tuple p) flow engine.flows,
      verdict,
      refl,
      refl,
      λ u other. find_flow-set_flow_other (tuple p) u flow engine.flows other,
    )
