-- ===== src/Engine/Verdict.antt =====
-- What `processParsedPacket` does with a flow and the report, from the test of `flow.blocked` on.
use flow_dpi.Prelude.{
  is_empty, ℕ, ◌≡◌, refl, List, [], ◌∷◌, ◌++◌, Bool, true, false, not, ◌&&◌, ◌||◌, some, arith,
  Bool-cases, inl, inr, sym, ap, ◌∙◌, append-nil, if◌then◌else◌,
}
use flow_dpi.Prelude.Fallible.{◌>>=◌}
use flow_dpi.Types.{ParsedPacket}
use flow_dpi.Rules.{BlockRules, match_blocked_domain}
use flow_dpi.Packet.Shape.{IsWellFormed}
use flow_dpi.Engine.{
  condemn, direction, ip_reason, port_reason, matched_port, domain_reason, inspect_domain,
  matches_ip, matches_port, inspect, extract, Option,
}
use flow_dpi.Engine.Describe.{codes}
use flow_dpi.Engine.State.{FlowState, BlockedEntry, EngineReport, add64, is_pending, is_found}
use flow_dpi.Engine.Extract.{IsTidy, IsKept, extract-IsTidy}

-- The name that a flow knows matches a domain rule.
abbrev pub matches_domain : BlockRules → FlowState → Bool
matches_domain rules flow =
    is_found flow.sni_status && not (is_empty (match_blocked_domain rules flow.sni))

-- A flow that this packet condemns.
abbrev pub newly : FlowState → FlowState → Bool
newly before after = after.blocked && not before.blocked

abbrev pub entry : ParsedPacket → FlowState → List ℕ → BlockedEntry
entry p after detail = record { description = direction p ++ detail; reason = after.block_reason }

-- The whole effect of a packet: the flow is blocked exactly when it was, or an address, a port or
-- the name matches a rule, and the report follows from whether it is.
pub record Verdict (rules : BlockRules) (p : ParsedPacket) (before after : FlowState)
    (report next : EngineReport) : Type 0 where
  pub blocked : after.blocked ≡ (
      before.blocked
      || (matches_ip rules p || (matches_port rules p || matches_domain rules after)))
  pub same_reason : before.blocked ≡ true → after.block_reason ≡ before.block_reason
  pub same_counts :
      (after.packet_count ≡ before.packet_count) × (after.byte_count ≡ before.byte_count)
  pub same_tuple : after.tuple ≡ before.tuple
  pub settled :
      is_pending before.sni_status ≡ false
      → (after.sni_status ≡ before.sni_status) × (after.sni ≡ before.sni)
  pub packets :
      next.blocked_packets
      ≡ (if after.blocked then add64 report.blocked_packets 1 else report.blocked_packets)
  pub flows :
      next.blocked_flows
      ≡ (if newly before after then add64 report.blocked_flows 1 else report.blocked_flows)
  pub entries :
      (detail : List ℕ) × (next.blocked_entries ≡ (
        if newly before after
        then report.blocked_entries ++ (entry p after detail ∷ [])
        else report.blocked_entries))
  pub observed : next.observed_snis ≡ (
      if is_found after.sni_status && not after.blocked
      then report.observed_snis ++ (after.sni ∷ [])
      else report.observed_snis)
  pub rest :
      (next.total_packets ≡ report.total_packets)
      × (next.total_flows ≡ report.total_flows)
      × (next.packet_latencies_ns ≡ report.packet_latencies_ns)

and_false : (b : Bool) → (b && false) ≡ false
and_false b = ground arith

and_true : (b : Bool) → (b && true) ≡ b
and_true b = ground arith

module _ (rules : BlockRules) (p : ParsedPacket) (report : EngineReport) where
  -- A flow that is blocked is not looked into.
  decided-Verdict :
      (flow : FlowState)
      → flow.blocked ≡ true
      → Verdict rules p flow flow report
          (record report { blocked_packets = add64 report.blocked_packets 1 })
  decided-Verdict flow e = record {
    blocked = rw e refl;
    same_reason = λ _. refl;
    same_counts = (refl, refl);
    same_tuple = refl;
    settled = λ _. (refl, refl);
    packets = rw e refl;
    flows = rw e refl;
    entries = ([], rw e refl);
    observed = rw (e, and_false _) refl;
    rest = (refl, refl, refl);
  }

  condemn-IsTidy :
      (flow : FlowState) (description reason : List ℕ)
      → IsTidy flow
      → IsTidy (condemn flow report description reason).0
  unfolding condemn
  condemn-IsTidy flow description reason tidy = record {
    word = tidy.word;
    bounded = tidy.bounded;
    released = tidy.released;
  }

  -- The flow is condemned, by whichever rule.
  condemn-Verdict :
      (before flow : FlowState) (description detail reason : List ℕ)
      → description ≡ direction p ++ detail
      → before.blocked ≡ false
      → IsKept before flow
      → (is_pending before.sni_status ≡ false → flow ≡ before)
      → (matches_ip rules p || (matches_port rules p || matches_domain rules flow)) ≡ true
      → Verdict rules p before
          (condemn flow report description reason).0
          report
          (condemn flow report description reason).1
  unfolding condemn
  condemn-Verdict before flow description detail reason d e same unchanged hit = record {
    blocked = rw (e, hit) refl;
    same_reason = λ f. cc;
    same_counts = (ap (λ c. c.3) same, ap (λ c. c.4) same);
    same_tuple = ap (λ c. c.0) same;
    settled = λ f. (ap (λ g. g.sni_status) (unchanged f), ap (λ g. g.sni) (unchanged f));
    packets = refl;
    flows = rw e refl;
    entries = (detail, rw (e, d) refl);
    observed = rw (and_false _) refl;
    rest = (refl, refl, refl);
  }

  abbrev allowed : FlowState → EngineReport
  allowed flow = record report {
    observed_snis =
        if is_found flow.sni_status
        then report.observed_snis ++ (flow.sni ∷ [])
        else report.observed_snis;
  }

  -- Nothing matched.
  allow-Verdict :
      (before flow : FlowState)
      → before.blocked ≡ false
      → IsKept before flow
      → (is_pending before.sni_status ≡ false → flow ≡ before)
      → (matches_ip rules p || (matches_port rules p || matches_domain rules flow)) ≡ false
      → Verdict rules p before flow report (allowed flow)
  allow-Verdict before flow e same unchanged miss =
      let open_flow : flow.blocked ≡ false = ap (λ c. c.1) same ∙ e in
      record {
        blocked = rw (e, miss) open_flow;
        same_reason = λ f. cc;
        same_counts = (ap (λ c. c.3) same, ap (λ c. c.4) same);
        same_tuple = ap (λ c. c.0) same;
        settled = λ f. (ap (λ g. g.sni_status) (unchanged f), ap (λ g. g.sni) (unchanged f));
        packets = rw open_flow refl;
        flows = rw open_flow refl;
        entries = ([], rw open_flow refl);
        observed = rw open_flow (rw (and_true _) refl);
        rest = (refl, refl, refl);
      }

  -- What the tail of `processParsedPacket` returns.
  abbrev pub Judges : FlowState → Option (FlowState × EngineReport) → Type 0
  Judges before m =
      (after : FlowState) × (next : EngineReport) × (m ≡ some (after, next))
      × IsTidy after
      × Verdict rules p before after report next

  inspect_domain-Judges :
      (before flow : FlowState)
      → before.blocked ≡ false
      → matches_ip rules p ≡ false
      → matches_port rules p ≡ false
      → IsTidy flow
      → IsKept before flow
      → (is_pending before.sni_status ≡ false → flow ≡ before)
      → Judges before (some (inspect_domain rules flow report p))
  unfolding inspect_domain
  inspect_domain-Judges before flow e ip port tidy same unchanged =
      elim (Bool-cases (is_found flow.sni_status)) [
        | inr unknown_name ↦ (
          flow,
          allowed flow,
          rw unknown_name refl,
          tidy,
          allow-Verdict before flow e same unchanged (rw (ip, port, unknown_name) refl),
        )
        | inl known ↦ elim (Bool-cases (is_empty (match_blocked_domain rules flow.sni))) [
          | inl none_matches ↦ (
            flow,
            allowed flow,
            rw (known, none_matches) refl,
            tidy,
            allow-Verdict before flow e same unchanged (rw (ip, port, known, none_matches) refl),
          )
          | inr matched ↦
              let description = direction p ++ (codes " (" ++ (flow.sni ++ codes ")")) in
              let reason = domain_reason (match_blocked_domain rules flow.sni) in
              let condemned = condemn flow report description reason in
              (
                condemned.0,
                condemned.1,
                rw (known, matched) refl,
                condemn-IsTidy flow description reason tidy,
                condemn-Verdict before flow description (codes " (" ++ (flow.sni ++ codes ")"))
                    reason refl e same unchanged (rw (ip, port, known, matched) refl),
              )
        ]
      ]

  inspect-extract :
      (flow after : FlowState) (bytes : List ℕ)
      → flow.blocked ≡ false
      → matches_ip rules p ≡ false
      → matches_port rules p ≡ false
      → extract flow p bytes ≡ some after
      → inspect rules flow report p bytes ≡ some (inspect_domain rules after report p)
  unfolding inspect ◌>>=◌
  inspect-extract flow after bytes free no_ip no_port e = simp (free, no_ip, no_port, e)

  pub inspect-Judges :
      (flow : FlowState) (bytes : List ℕ)
      → IsWellFormed bytes p
      → IsTidy flow
      → Judges flow (inspect rules flow report p bytes)
  unfolding inspect
  inspect-Judges flow bytes w tidy = elim (Bool-cases flow.blocked) [
    | inl b ↦ (
      flow,
      record report { blocked_packets = add64 report.blocked_packets 1 },
      rw b refl,
      tidy,
      decided-Verdict flow b,
    )
    | inr free ↦ elim (Bool-cases (matches_ip rules p)) [
      | inl ip ↦ by_rule ip_reason free (rw ip refl) (rw (free, ip) refl)
      | inr no_ip ↦ elim (Bool-cases (matches_port rules p)) [
        | inl port ↦
            by_rule (port_reason p.protocol (matched_port rules p)) free (rw (no_ip, port) refl)
              (rw (free, no_ip, port) refl)
        | inr no_port ↦
            let (after, e, t, same, unchanged) = extract-IsTidy flow p bytes w tidy in
            let (last, next, f, tidy', done) =
              inspect_domain-Judges flow after free no_ip no_port t same unchanged in
            (last, next, inspect-extract flow after bytes free no_ip no_port e ∙ f, tidy', done)
      ]
    ]
  ]
    where
      by_rule :
          (reason : List ℕ)
          → flow.blocked ≡ false
          → (matches_ip rules p || (matches_port rules p || matches_domain rules flow)) ≡ true
          → inspect rules flow report p bytes ≡ some (condemn flow report (direction p) reason)
          → Judges flow (inspect rules flow report p bytes)
      by_rule reason free hit e =
          let condemned = condemn flow report (direction p) reason in
          (
            condemned.0,
            condemned.1,
            e,
            condemn-IsTidy flow (direction p) reason tidy,
            condemn-Verdict flow flow (direction p) [] reason (sym (append-nil (direction p))) free
                refl (λ _. refl) hit,
          )
