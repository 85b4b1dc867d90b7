-- ===== src/Engine/Run.antt =====
-- Whole runs of the engine: `processPacket` and the loop of `processFile`.
use flow_dpi.Prelude.{
  ℕ, ◌≡◌, refl, List, [], ◌∷◌, Bool, true, false, ◌⊎◌, some, All, Bool-cases, inl, inr, ◌∙◌,
}
use flow_dpi.Prelude.Fallible.{◌>>=◌, bind-some}
use flow_dpi.Types.{ParsedPacket, RawPacket}
use flow_dpi.Rules.{BlockRules}
use flow_dpi.Packet.{parse}
use flow_dpi.Packet.Bounds.{parse_safe}
use flow_dpi.Engine.{process_parsed_packet, process_packet, process_packets}
use flow_dpi.Engine.State.{FlowState, EngineReport, DpiEngine, new_engine}
use flow_dpi.Engine.Extract.{IsTidy}
use flow_dpi.Engine.Verdict.{Verdict}
use flow_dpi.Engine.Invariant.{
  IsValid, flow_before, report_before, engine_after, Processes, process_parsed_packet-Processes,
  engine_after-IsValid,
}

module _ (engine : DpiEngine) (raw : RawPacket) (elapsed : ℕ) (accepted : Bool) (p : ParsedPacket)
    (e : parse raw.bytes ≡ some (accepted, p)) where
  pub process_packet-refused : accepted ≡ false → process_packet engine raw elapsed ≡ some engine
  unfolding process_packet ◌>>=◌
  process_packet-refused refused = simp (e, refused)

  pub process_packet-accepted :
      accepted ≡ true
      → process_packet engine raw elapsed ≡ process_parsed_packet engine raw.bytes p elapsed
  unfolding process_packet ◌>>=◌
  process_packet-accepted good = simp (e, good)

  pub process_packet-other :
      accepted ≡ true → p.has_ip ≡ false → process_packet engine raw elapsed ≡ some engine
  unfolding process_parsed_packet
  process_packet-other good other = process_packet-accepted good ∙ simp other

-- A packet that is skipped leaves the engine, and any other is processed.
pub process_packet-cases :
    (engine : DpiEngine) (raw : RawPacket) (elapsed : ℕ)
    → All (λ e. IsTidy e.1) engine.flows
    → (process_packet engine raw elapsed ≡ some engine)
      ⊎ ((p : ParsedPacket) × Processes engine raw.bytes p elapsed
            (process_packet engine raw elapsed))
process_packet-cases engine raw elapsed all =
    let (accepted, p, e, w) = parse_safe raw.bytes in
    elim (Bool-cases accepted) [
      | inr refused ↦ inl (process_packet-refused engine raw elapsed accepted p e refused)
      | inl good ↦ elim (Bool-cases p.has_ip) [
        | inr other ↦ inl (process_packet-other engine raw elapsed accepted p e good other)
        | inl ip ↦
            let (flow, report, f, tidy, verdict) =
              process_parsed_packet-Processes engine raw.bytes p elapsed all (w good) ip in
            inr (
              p,
              (
                flow,
                report,
                process_packet-accepted engine raw elapsed accepted p e good ∙ f,
                tidy,
                verdict,
              ),
            )
      ]
    ]

-- What each processed packet preserves, a whole run does.
module _ (P : DpiEngine → Type 0)
    (step : (engine : DpiEngine) (bytes : List ℕ) (p : ParsedPacket) (elapsed : ℕ)
        (flow : FlowState) (report : EngineReport)
      → P engine
      → Verdict engine.rules p (flow_before engine bytes p) flow (report_before engine p) report
      → P (engine_after engine p elapsed flow report)) where
  process_packet-preserves :
      (engine : DpiEngine) (raw : RawPacket) (elapsed : ℕ)
      → IsValid engine
      → P engine
      → (engine' : DpiEngine) × (process_packet engine raw elapsed ≡ some engine')
        × IsValid engine'
        × P engine'
  process_packet-preserves engine raw elapsed v h =
      elim (process_packet-cases engine raw elapsed v.tidy) [
        | inl e ↦ (engine, e, v, h)
        | inr (p, (flow, report, e, tidy, verdict)) ↦ (
          engine_after engine p elapsed flow report,
          e,
          engine_after-IsValid engine raw.bytes p elapsed flow report v tidy verdict,
          step engine raw.bytes p elapsed flow report h verdict,
        )
      ]

  pub process_packets-preserves :
      (engine : DpiEngine) (raws : List (RawPacket × ℕ))
      → IsValid engine
      → P engine
      → (engine' : DpiEngine) × (process_packets engine raws ≡ some engine')
        × IsValid engine'
        × P engine'
  unfolding process_packets
  process_packets-preserves engine [] v h = (engine, refl, v, h)
  process_packets-preserves engine ((raw, elapsed) ∷ rest) v h =
      let (middle, e, v', h') = process_packet-preserves engine raw elapsed v h in
      let (last, f, v'', h'') = process_packets-preserves middle rest v' h' in
      (last, bind-some _ e f, v'', h'')

-- A run over any captured packets, from a valid engine, never reads outside a buffer, and the
-- engine stays valid: its counters agree, modulo 2 ^ 64, with its table and its report, and what a flow
-- has collected for the TLS parser, its sni_buffer, is at most 65536 bytes and empty once the search
-- is decided. The segments that wait in a flow's reassembler are not limited by this.
pub process_packets-IsValid :
    (engine : DpiEngine) (raws : List (RawPacket × ℕ))
    → IsValid engine
    → (engine' : DpiEngine) × (process_packets engine raws ≡ some engine') × IsValid engine'
process_packets-IsValid engine raws v =
    let (engine', e, v', _) =
      process_packets-preserves (λ _. Unit) (λ _ _ _ _ _ _ _ _. tt) engine raws v tt in
    (engine', e, v')

pub new_engine-IsValid : (rules : BlockRules) → IsValid (new_engine rules)
new_engine-IsValid rules = record {
  tidy = tt;
  total_flows = refl;
  blocked_flows = refl;
  entries = refl;
  packets = refl;
}
