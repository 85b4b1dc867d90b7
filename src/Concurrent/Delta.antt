-- ===== src/Concurrent/Delta.antt =====
-- What a packet adds to the report does not depend on the report that it is added to.
use flow_dpi.Prelude.{
  is_empty, All, none-ne_some, some_injective, ℕ, ◌≡◌, refl, sym, ap, ◌∙◌, List, [], ◌∷◌, ◌++◌,
  append_assoc, append-nil, true, Option, none, some, Option-cases, Bool-cases, inl, inr, arith,
}
use flow_dpi.Prelude.Fallible.{◌>>=◌, bind-some}
use flow_dpi.Types.{ParsedPacket, tuple}
use flow_dpi.Rules.{BlockRules, match_blocked_domain}
use flow_dpi.Engine.{
  condemn, inspect_domain, inspect, extract, matches_ip, matches_port, count_packet, or_fresh,
  one_if_none, process_parsed_packet,
}
use flow_dpi.Engine.State.{
  FlowState, EngineReport, empty_report, add64, is_found, find_flow, set_flow, DpiEngine,
}
use flow_dpi.Engine.Extract.{IsTidy}
use flow_dpi.Engine.Verdict.{inspect-Judges}
use flow_dpi.Packet.Shape.{IsWellFormed}
use flow_dpi.Engine.Invariant.{
  flow_before-IsTidy, flow_before, report_before, process_parsed_packet-inspect,
}
use flow_dpi.Concurrent.{merge_report_into}
use flow_dpi.Concurrent.Reports.{IsWord64, report_eq, add64_assoc}

-- A result with another report in front of its own.
abbrev pub behind :
    EngineReport → Option (FlowState × EngineReport) → Option (FlowState × EngineReport)
behind report none = none
behind report (some (flow, own)) = some (flow, merge_report_into report own)

module _ (report own : EngineReport) where
  condemn-merge :
      (flow : FlowState) (description reason : List ℕ)
      → some (condemn flow (merge_report_into report own) description reason)
        ≡ behind report (some (condemn flow own description reason))
  unfolding condemn merge_report_into
  condemn-merge flow description reason =
      ap (λ r. some (record flow { blocked = true; block_reason = reason }, r))
        (report_eq _ _ refl refl (add64_assoc report.blocked_flows own.blocked_flows 1)
          (add64_assoc report.blocked_packets own.blocked_packets 1)
          (append_assoc report.blocked_entries own.blocked_entries _) refl refl)

  decided-merge :
      (flow : FlowState)
      → some (
        flow,
        record (merge_report_into report own) {
          blocked_packets = add64 (merge_report_into report own).blocked_packets 1;
        },
      )
        ≡ behind report (some (flow, record own { blocked_packets = add64 own.blocked_packets 1 }))
  unfolding merge_report_into
  decided-merge flow =
      ap (λ r. some (flow, r))
        (report_eq _ _ refl refl refl (add64_assoc report.blocked_packets own.blocked_packets 1)
          refl refl refl)

  allowed-merge :
      (flow : FlowState)
      → some (
        flow,
        record (merge_report_into report own) {
          observed_snis = (merge_report_into report own).observed_snis ++ (flow.sni ∷ []);
        },
      )
        ≡ behind report
            (some (flow, record own { observed_snis = own.observed_snis ++ (flow.sni ∷ []) }))
  unfolding merge_report_into
  allowed-merge flow =
      ap (λ r. some (flow, r))
        (report_eq _ _ refl refl refl refl refl
          (append_assoc report.observed_snis own.observed_snis _) refl)

  module _ (rules : BlockRules) (p : ParsedPacket) where
    inspect_domain-merge :
        (flow : FlowState)
        → some (inspect_domain rules flow (merge_report_into report own) p)
          ≡ behind report (some (inspect_domain rules flow own p))
    unfolding inspect_domain
    inspect_domain-merge flow = elim (Bool-cases (is_found flow.sni_status)) [
      | inr unknown_name ↦ simp unknown_name
      | inl known ↦ elim (Bool-cases (is_empty (match_blocked_domain rules flow.sni))) [
        | inl none_matches ↦ simp (known, none_matches) (allowed-merge flow)
        | inr matched ↦ simp (known, matched) (condemn-merge flow _ _)
      ]
    ]

    inspect-merge :
        (flow : FlowState) (bytes : List ℕ)
        → inspect rules flow (merge_report_into report own) p bytes
          ≡ behind report (inspect rules flow own p bytes)
    unfolding inspect ◌>>=◌
    inspect-merge flow bytes = elim (Bool-cases flow.blocked) [
      | inl b ↦ simp b (decided-merge flow)
      | inr free ↦ elim (Bool-cases (matches_ip rules p)) [
        | inl ip ↦ simp (free, ip) (condemn-merge flow _ _)
        | inr no_ip ↦ elim (Bool-cases (matches_port rules p)) [
          | inl port ↦ simp (free, no_ip, port) (condemn-merge flow _ _)
          | inr no_port ↦ elim (Option-cases (extract flow p bytes)) [
            | inl e ↦ simp (free, no_ip, no_port, e)
            | inr (after, e) ↦ simp (free, no_ip, no_port, e) (inspect_domain-merge after)
          ]
        ]
      ]
    ]

-- The flow that a packet leaves and what it adds to the report, from the rules and its own flow.
pub judge :
    BlockRules → Option FlowState → List ℕ → ParsedPacket → ℕ → Option (FlowState × EngineReport)
judge rules known bytes p elapsed =
    inspect rules (count_packet (or_fresh (tuple p) known) bytes)
      (record empty_report { total_packets = 1; total_flows = one_if_none known }) p bytes
    >>= λ done. some (
      done.0,
      record (done.1) { packet_latencies_ns = done.1.packet_latencies_ns ++ (elapsed ∷ []) },
    )

-- The rules and the packet's flow always come to a judgement.
pub judge-some :
    (engine : DpiEngine) (bytes : List ℕ) (p : ParsedPacket) (elapsed : ℕ)
    → All (λ e. IsTidy e.1) engine.flows
    → IsWellFormed bytes p
    → (judged : FlowState × EngineReport) × (judge engine.rules
          (find_flow (tuple p) engine.flows)
          bytes
          p
          elapsed
        ≡ some judged)
      × IsTidy judged.0
unfolding judge
judge-some engine bytes p elapsed all w =
    let (flow, own, e, tidy, _) =
      inspect-Judges engine.rules p
        (record empty_report {
          total_packets = 1;
          total_flows = one_if_none (find_flow (tuple p) engine.flows);
        })
        (flow_before engine bytes p) bytes w (flow_before-IsTidy engine bytes p all) in
    (_, bind-some _ e refl, tidy)

report_before-merge :
    (engine : DpiEngine) (p : ParsedPacket)
    → IsWord64 engine.report
    → report_before engine p
      ≡ merge_report_into engine.report (record empty_report {
        total_packets = 1;
        total_flows = one_if_none (find_flow (tuple p) engine.flows);
      })
unfolding merge_report_into
report_before-merge engine p w =
    report_eq _ _ refl refl (omega (arith, w.blocked_flows)) (omega (arith, w.blocked_packets))
      (sym (append-nil _)) (sym (append-nil _)) (sym (append-nil _))

module _ (engine : DpiEngine) (bytes : List ℕ) (p : ParsedPacket) (elapsed : ℕ) where
  -- The engine with a flow and what the packet adds to the report.
  abbrev pub engine_with : FlowState × EngineReport → DpiEngine
  engine_with r = record engine {
    flows = set_flow (tuple p) r.0 engine.flows;
    report = merge_report_into engine.report r.1;
  }

  process_parsed_packet-inspected :
      (flow : FlowState) (own : EngineReport)
      → IsWord64 engine.report
      → p.has_ip ≡ true
      → inspect engine.rules
          (flow_before engine bytes p)
          (record empty_report {
            total_packets = 1;
            total_flows = one_if_none (find_flow (tuple p) engine.flows);
          })
          p
          bytes
        ≡ some (flow, own)
      → process_parsed_packet engine bytes p elapsed
        ≡ some (
            engine_with (
              flow,
              record own { packet_latencies_ns = own.packet_latencies_ns ++ (elapsed ∷ []) },
            ))
  unfolding merge_report_into
  process_parsed_packet-inspected flow own w ip e =
      process_parsed_packet-inspect engine bytes p elapsed flow
        (merge_report_into engine.report own) ip
        (ap (λ r. inspect engine.rules (flow_before engine bytes p) r p bytes)
            (report_before-merge engine p w)
          ∙ inspect-merge engine.report _ engine.rules p (flow_before engine bytes p) bytes
          ∙ ap (behind engine.report) e)
      ∙ ap (λ r. some (record engine { flows = set_flow (tuple p) flow engine.flows; report = r }))
          (report_eq _ _ refl refl refl refl refl refl
            (append_assoc engine.report.packet_latencies_ns own.packet_latencies_ns (elapsed ∷ [])))

  -- The engine takes what its rules and the packet's flow decide, and merges it into its report.
  pub process_parsed_packet-judge :
      (judged : FlowState × EngineReport)
      → IsWord64 engine.report
      → p.has_ip ≡ true
      → judge engine.rules (find_flow (tuple p) engine.flows) bytes p elapsed ≡ some judged
      → process_parsed_packet engine bytes p elapsed ≡ some (engine_with judged)
  unfolding judge ◌>>=◌
  process_parsed_packet-judge judged w ip e = elim (Option-cases inspected) [
    | inl nothing ↦ absurd (none-ne_some (sym (simp nothing) ∙ e))
    | inr ((flow, own), f) ↦
        process_parsed_packet-inspected flow own w ip f
        ∙ ap (λ r. some (engine_with r)) (some_injective (sym (bind-some _ f refl) ∙ e))
  ]
    where
      inspected : Option (FlowState × EngineReport)
      inspected =
          inspect engine.rules (flow_before engine bytes p)
            (record empty_report {
              total_packets = 1;
              total_flows = one_if_none (find_flow (tuple p) engine.flows);
            })
            p bytes
