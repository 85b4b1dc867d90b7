-- ===== src/Concurrent/Segments.antt =====
-- A ClientHello that arrives in several segments of one flow.
pub mod Arrival
mod Tests
use flow_dpi.Prelude.{
  ℕ, zero, suc, ◌+◌, ◌*◌, ◌/◌, ◌%◌, ◌^◌, ◌≤◌, ◌<◌, ◌≡◌, refl, ap, sym, subst, ◌∙◌, List, [], ◌∷◌,
  ◌++◌, append_assoc, append-nil, length, length-append, is_empty, Bool, true, false, ◌&&◌, Option,
  none, some, ltb, le→ltb, arith, inl, inr,
}
use flow_dpi.Prelude.Fallible.{◌>>=◌, bind-some}
use flow_dpi.Types.{FiveTuple, tcp, ParsedPacket, tuple}
use flow_dpi.Rules.{BlockRules, match_blocked_domain}
use flow_dpi.Bench.{build_client_hello_record}
use flow_dpi.Tcp.{Reassembler, feed, add_segment, pull_contiguous}
use flow_dpi.Tcp.Stream.{IsShort, IsReady, feed-IsReady, concat}
use flow_dpi.Tls.{try_extract_sni}
use flow_dpi.Tls.Monad.{TlsParseStatus}
use flow_dpi.Tls.Partial.{try_extract_sni-partial}
use flow_dpi.Tls.RoundTrip.{
  length-build_client_hello_record, try_extract_sni-build_client_hello_record,
}
use flow_dpi.Engine.{
  max_reassembly_bytes, is_tcp, direction, domain_reason, matches_ip, matches_port, payload_bytes,
  extract, resolve, try_resolve_sni, inspect_domain, inspect, condemn, count_packet,
  process_parsed_packet, or_fresh, one_if_none,
}
use flow_dpi.Engine.Describe.{codes, describe_direction}
use flow_dpi.Engine.Hello.{
  feed-split, try_resolve_sni-pulled, inspect-undecided, inspect_domain-matched,
}
use flow_dpi.Engine.Invariant.{
  process_parsed_packet-inspect, flow_before, report_before, engine_after,
}
use flow_dpi.Engine.State.{
  SniAttemptStatus, is_pending, is_found, FlowState, fresh_flow, BlockedEntry, EngineReport,
  find_flow, set_flow, DpiEngine, add64,
}
use flow_dpi.Engine.Table.{find_flow-set_flow}
use flow_dpi.Concurrent.{WorkItem, process_items}

-- A packet of the flow `t` that carries `chunk` from the number `seq` on, and that no rule on
-- addresses or ports matches.
pub record IsSegment (rules : BlockRules) (t : FiveTuple) (seq : ℕ) (chunk : List ℕ)
    (item : WorkItem) : Type 0 where
  pub ip : item.parsed.has_ip ≡ true
  pub l4 : item.parsed.has_l4 ≡ true
  pub transport : item.parsed.protocol ≡ tcp
  pub flow : tuple item.parsed ≡ t
  pub number : item.parsed.tcp_seq ≡ seq
  pub payload : payload_bytes item.raw.bytes item.parsed ≡ some chunk
  pub no_ip : matches_ip rules item.parsed ≡ false
  pub no_port : matches_port rules item.parsed ≡ false

-- The packets carry the chunks, one after another.
pub data Carries (rules : BlockRules) (t : FiveTuple)
    : ℕ → List (List ℕ) → List WorkItem → Type 0 where
  carries_nothing : {seq : ℕ} → Carries rules t seq [] []
  carries :
      {seq : ℕ} {chunk : List ℕ} {chunks : List (List ℕ)} {item : WorkItem} {items : List WorkItem}
      → IsSegment rules t seq chunk item
      → Carries rules t ((seq + length chunk) % 2 ^ 32) chunks items
      → Carries rules t seq (chunk ∷ chunks) (item ∷ items)

-- The flow has `bytes` and waits for those from `seq` on; the report names no more than `base` does.
pub record IsWaiting (base : EngineReport) (rules : BlockRules) (t : FiveTuple) (seq : ℕ)
    (bytes : List ℕ) (engine : DpiEngine) : Type 0 where
  pub same_rules : engine.rules ≡ rules
  pub free : (or_fresh t (find_flow t engine.flows)).blocked ≡ false
  pub undecided : (or_fresh t (find_flow t engine.flows)).sni_status ≡ SniAttemptStatus.pending
  pub buffer : (or_fresh t (find_flow t engine.flows)).sni_buffer ≡ bytes
  pub ready : IsReady (or_fresh t (find_flow t engine.flows)).reassembler seq
  pub blocked_flows : engine.report.blocked_flows ≡ base.blocked_flows
  pub blocked_packets : engine.report.blocked_packets ≡ base.blocked_packets
  pub entries : engine.report.blocked_entries ≡ base.blocked_entries
  pub observed : engine.report.observed_snis ≡ base.observed_snis

-- The entry of a flow whose name a rule matches.
abbrev pub named_entry : BlockRules → FiveTuple → List ℕ → BlockedEntry
named_entry rules t host = record {
  description =
      describe_direction t.src_ip t.src_port t.dst_ip t.dst_port
      ++ (codes " (" ++ (host ++ codes ")"));
  reason = domain_reason (match_blocked_domain rules host);
}

-- The flow is blocked by its name, and the report has one flow, one packet and one entry more.
pub record IsCondemned (base : EngineReport) (rules : BlockRules) (t : FiveTuple) (host : List ℕ)
    (engine : DpiEngine) : Type 0 where
  pub blocked :
      (flow : FlowState) × (find_flow t engine.flows ≡ some flow)
      × (flow.blocked ≡ true)
      × (flow.sni ≡ host)
  pub blocked_flows : engine.report.blocked_flows ≡ add64 base.blocked_flows 1
  pub blocked_packets : engine.report.blocked_packets ≡ add64 base.blocked_packets 1
  pub entries :
      engine.report.blocked_entries ≡ base.blocked_entries ++ (named_entry rules t host ∷ [])
  pub observed : engine.report.observed_snis ≡ base.observed_snis

inspect_domain-undecided :
    (rules : BlockRules) (flow : FlowState) (report : EngineReport) (p : ParsedPacket)
    → flow.sni_status ≡ SniAttemptStatus.pending
    → inspect_domain rules flow report p ≡ (flow, report)
unfolding inspect_domain
inspect_domain-undecided rules flow report p undecided = rw unknown refl
  where
    unknown : is_found flow.sni_status ≡ false
    unknown = simp undecided

-- The segment, the pull and the attempt, put together.
extract-tried :
    (flow after : FlowState) (p : ParsedPacket) (bytes chunk : List ℕ) (middle : Reassembler)
    → p.protocol ≡ tcp
    → p.has_l4 ≡ true
    → flow.sni_status ≡ SniAttemptStatus.pending
    → payload_bytes bytes p ≡ some chunk
    → add_segment flow.reassembler p.tcp_seq chunk ≡ some middle
    → try_resolve_sni (record flow { reassembler = middle }) ≡ some after
    → extract flow p bytes ≡ some after
unfolding extract
extract-tried flow after p bytes chunk middle transport l4 undecided e f g =
    rw tried (bind-some _ e (bind-some _ f g))
  where
    tried : (is_tcp p.protocol && p.has_l4 && is_pending flow.sni_status) ≡ true
    tried = simp (transport, l4, undecided)

-- A record that is not whole leaves the flow as it is, while the buffer is not too long.
resolve-incomplete :
    (flow : FlowState)
    → length flow.sni_buffer ≤ max_reassembly_bytes
    → resolve flow (TlsParseStatus.incomplete, []) ≡ flow
unfolding resolve
resolve-incomplete flow small = rw (le→ltb max_reassembly_bytes (length flow.sni_buffer) small) refl

-- An attempt on such bytes, or on none.
try_resolve_sni-waits :
    (flow : FlowState) (middle r : Reassembler) (chunk total : List ℕ)
    → pull_contiguous middle ≡ (r, chunk)
    → flow.sni_buffer ++ chunk ≡ total
    → length total ≤ max_reassembly_bytes
    → try_extract_sni total ≡ some (TlsParseStatus.incomplete, [])
    → try_resolve_sni (record flow { reassembler = middle })
      ≡ some (record flow { reassembler = r; sni_buffer = total })
unfolding try_resolve_sni
try_resolve_sni-waits flow middle r chunk [] g e small partial = rw g (rw e refl)
try_resolve_sni-waits flow middle r chunk (x ∷ xs) g e small partial =
    try_resolve_sni-pulled flow middle r chunk x xs (TlsParseStatus.incomplete, []) g e partial
    ∙ ap some (resolve-incomplete (record flow { reassembler = r; sni_buffer = x ∷ xs }) small)

-- A segment of a flow that waits, before its verdict: what the search makes of the flow.
module _ (base : EngineReport) (engine : DpiEngine) (item : WorkItem) (seq : ℕ)
    (bytes chunk : List ℕ)
    (waiting : IsWaiting base engine.rules (tuple item.parsed) seq bytes engine)
    (segment : IsSegment engine.rules (tuple item.parsed) seq chunk item) (small : seq < 2 ^ 32)
    (short : IsShort chunk) where
  abbrev before : FlowState
  before = flow_before engine item.raw.bytes item.parsed

  fed :
      (r : Reassembler) × (middle : Reassembler) × (add_segment before.reassembler
          item.parsed.tcp_seq chunk
        ≡ some middle)
      × (pull_contiguous middle ≡ (r, chunk))
      × IsReady r ((seq + length chunk) % 2 ^ 32)
  unfolding count_packet
  fed =
      let (r, e, ready) = feed-IsReady before.reassembler seq chunk small short waiting.ready in
      let (middle, f, g) = feed-split before.reassembler r seq chunk chunk e in
      (r, middle, rw segment.number f, g, ready)

  process-searched :
      (after : FlowState) (flow : FlowState) (report : EngineReport)
      → try_resolve_sni (record before { reassembler = fed.1 }) ≡ some after
      → inspect_domain engine.rules after (report_before engine item.parsed) item.parsed
        ≡ (flow, report)
      → process_parsed_packet engine item.raw.bytes item.parsed item.elapsed
        ≡ some (engine_after engine item.parsed item.elapsed flow report)
  unfolding count_packet
  process-searched after flow report e f =
      process_parsed_packet-inspect engine item.raw.bytes item.parsed item.elapsed flow report
        segment.ip
        (inspect-undecided engine.rules before after (report_before engine item.parsed) item.parsed
            item.raw.bytes waiting.free segment.no_ip segment.no_port
            (extract-tried before after item.parsed item.raw.bytes chunk fed.1 segment.transport
              segment.l4 waiting.undecided segment.payload fed.2 e)
          ∙ ap some f)

  -- The bytes are still no whole record.
  segment-IsWaiting :
      length (bytes ++ chunk) ≤ max_reassembly_bytes
      → try_extract_sni (bytes ++ chunk) ≡ some (TlsParseStatus.incomplete, [])
      → (engine' : DpiEngine) × (process_parsed_packet engine item.raw.bytes item.parsed
            item.elapsed
          ≡ some engine')
        × IsWaiting base engine.rules
            (tuple item.parsed)
            ((seq + length chunk) % 2 ^ 32)
            (bytes ++ chunk)
            engine'
  unfolding count_packet
  segment-IsWaiting limited partial =
      let after : FlowState = record before { reassembler = fed.0; sni_buffer = bytes ++ chunk } in
      let report = report_before engine item.parsed in
      let found = find_flow-set_flow (tuple item.parsed) after engine.flows in
      (
        engine_after engine item.parsed item.elapsed after report,
        process-searched after after report
            (try_resolve_sni-waits before fed.1 fed.0 chunk (bytes ++ chunk) fed.3
              (ap (λ b. b ++ chunk) waiting.buffer) limited partial)
            (inspect_domain-undecided engine.rules after report item.parsed waiting.undecided),
        record {
          same_rules = refl;
          free = rw found waiting.free;
          undecided = rw found waiting.undecided;
          buffer = rw found refl;
          ready = rw found fed.4;
          blocked_flows = waiting.blocked_flows;
          blocked_packets = waiting.blocked_packets;
          entries = waiting.entries;
          observed = waiting.observed;
        },
      )

  -- The bytes hold the record, and a rule matches its name.
  segment-IsCondemned :
      (host : List ℕ) (x : ℕ) (xs : List ℕ)
      → bytes ++ chunk ≡ x ∷ xs
      → try_extract_sni (x ∷ xs) ≡ some (TlsParseStatus.found, host)
      → is_empty (match_blocked_domain engine.rules host) ≡ false
      → (engine' : DpiEngine) × (process_parsed_packet engine item.raw.bytes item.parsed
            item.elapsed
          ≡ some engine')
        × IsCondemned base engine.rules (tuple item.parsed) host engine'
  unfolding count_packet resolve condemn
  segment-IsCondemned host x xs whole named matched =
      let full : FlowState = record before { reassembler = fed.0; sni_buffer = x ∷ xs } in
      let after = resolve full (TlsParseStatus.found, host) in
      let report = report_before engine item.parsed in
      let reason = domain_reason (match_blocked_domain engine.rules host) in
      let done =
        condemn after report (direction item.parsed ++ (codes " (" ++ (host ++ codes ")")))
          reason in
      (
        engine_after engine item.parsed item.elapsed done.0 done.1,
        process-searched after done.0 done.1
            (try_resolve_sni-pulled before fed.1 fed.0 chunk x xs (TlsParseStatus.found, host) fed.3
              (ap (λ b. b ++ chunk) waiting.buffer ∙ whole) named)
            (inspect_domain-matched engine.rules after report item.parsed refl matched),
        record {
          blocked =
              (done.0, find_flow-set_flow (tuple item.parsed) done.0 engine.flows, refl, refl);
          blocked_flows = ap (λ n. add64 n 1) waiting.blocked_flows;
          blocked_packets = ap (λ n. add64 n 1) waiting.blocked_packets;
          entries =
              ap (λ es. es ++ (named_entry engine.rules (tuple item.parsed) host ∷ []))
                waiting.entries;
          observed = waiting.observed;
        },
      )
