-- ===== src/Engine.antt =====
-- src/dpi_engine.cpp: one packet through the engine. `none` is what the code must never do: a read
-- outside a buffer in the reassembler, in the TLS parser or at the payload.
pub mod State
pub mod Describe
pub mod Extract
pub mod Table
pub mod Verdict
pub mod Invariant
pub mod Run
mod Lasting
mod Effect
mod Observed
pub mod Hello
mod Padding
pub mod File
mod Tests
use flow_dpi.Prelude.{
  is_empty, ℕ, ◌+◌, ◌%◌, ◌^◌, List, [], ◌∷◌, ◌++◌, length, slice, Bool, true, false, not, ◌&&◌,
  ◌||◌, Option, none, some, ltb, leb, ◌==◌, if◌then◌else◌,
}
use flow_dpi.Prelude.Fallible.{◌>>=◌}
use flow_dpi.Prelude.Text.{to_string}
use flow_dpi.Types.{FiveTuple, L4Protocol, unknown, tcp, udp, ParsedPacket, RawPacket, tuple}
use flow_dpi.Tcp.{Reassembler, add_segment, pull_contiguous}
use flow_dpi.Tls.{try_extract_sni}
use flow_dpi.Tls.Monad.{TlsParseStatus}
use flow_dpi.Rules.{BlockRules, is_blocked_ip, is_blocked_port, match_blocked_domain}
use flow_dpi.Packet.{parse}
use State.{
  SniAttemptStatus, is_pending, is_found, FlowState, fresh_flow, BlockedEntry, EngineReport, add64,
  Flows, find_flow, set_flow, DpiEngine,
}
use Describe.{codes, describe_direction}

abbrev pub max_reassembly_bytes : ℕ
max_reassembly_bytes = 65536

-- The `switch` of `tryResolveSni`, for a buffer that is not empty.
unfoldable pub resolve : FlowState → TlsParseStatus × List ℕ → FlowState
resolve flow (TlsParseStatus.incomplete, sni) =
    if ltb max_reassembly_bytes (length flow.sni_buffer)
    then record flow { sni_status = SniAttemptStatus.gave_up; sni_buffer = [] }
    else flow
resolve flow (TlsParseStatus.found, sni) = record flow {
  sni = sni;
  sni_status = SniAttemptStatus.found;
  sni_buffer = [];
}
resolve flow (TlsParseStatus.no_sni, sni) = record flow {
  sni_status = SniAttemptStatus.no_sni;
  sni_buffer = [];
}
resolve flow (TlsParseStatus.not_tls, sni) = record flow {
  sni_status = SniAttemptStatus.not_tls;
  sni_buffer = [];
}
resolve flow (TlsParseStatus.malformed, sni) = record flow {
  sni_status = SniAttemptStatus.malformed;
  sni_buffer = [];
}

-- `tryResolveSni`
unfoldable pub try_resolve_sni : FlowState → Option FlowState
try_resolve_sni flow =
    let (r, chunk) = pull_contiguous flow.reassembler in
    let flow' = record flow { reassembler = r; sni_buffer = flow.sni_buffer ++ chunk } in
    let resolved : Option FlowState =
      try_extract_sni flow'.sni_buffer >>= λ answer. some (resolve flow' answer) in
    if is_empty flow'.sni_buffer then some flow' else resolved

-- The bytes from `payload` on, `payload_len` of them.
unfoldable pub payload_bytes : List ℕ → ParsedPacket → Option (List ℕ)
payload_bytes bytes p = elim p.payload [
  | none ↦ if p.payload_len == 0 then some [] else none
  | some i ↦
      if leb (i + p.payload_len) (length bytes) then some (slice i p.payload_len bytes) else none
]

-- A flow is condemned: its state, the two counters and the entry in the report.
unfoldable pub condemn : FlowState → EngineReport → List ℕ → List ℕ → FlowState × EngineReport
condemn flow report description reason = (
  record flow { blocked = true; block_reason = reason },
  record report {
    blocked_flows = add64 report.blocked_flows 1;
    blocked_packets = add64 report.blocked_packets 1;
    blocked_entries =
        report.blocked_entries ++ (record { description = description; reason = reason } ∷ []);
  },
)

abbrev pub direction : ParsedPacket → List ℕ
direction p = describe_direction p.src_ip p.src_port p.dst_ip p.dst_port

abbrev pub ip_reason : List ℕ
ip_reason = codes "matched blocked IP rule"

-- The name that the reason of a port rule gives.
abbrev pub transport_name : L4Protocol → List ℕ
transport_name tcp = codes "TCP"
transport_name p = codes "UDP"

abbrev pub port_reason : L4Protocol → ℕ → List ℕ
port_reason protocol port =
    codes "matched blocked "
    ++ (transport_name protocol ++ (codes " port " ++ (to_string port ++ codes " rule")))

abbrev pub domain_reason : List ℕ → List ℕ
domain_reason rule = codes "matched blocked domain rule (" ++ (rule ++ codes ")")

abbrev pub is_tcp : L4Protocol → Bool
is_tcp tcp = true
is_tcp p = false

-- The segment and the attempt at the server name, while the direction is undecided.
unfoldable pub extract : FlowState → ParsedPacket → List ℕ → Option FlowState
extract flow p bytes =
    let attempt : Option FlowState = (do
      payload ← payload_bytes bytes p
      r ← add_segment flow.reassembler p.tcp_seq payload
      try_resolve_sni (record flow { reassembler = r })) in
    if is_tcp p.protocol && p.has_l4 && is_pending flow.sni_status then attempt else some flow

-- The check of the server name, once it is known.
unfoldable pub inspect_domain :
    BlockRules → FlowState → EngineReport → ParsedPacket → FlowState × EngineReport
inspect_domain rules flow report p =
    let rule = match_blocked_domain rules flow.sni in
    let allowed : FlowState × EngineReport =
      (flow, record report { observed_snis = report.observed_snis ++ (flow.sni ∷ []) }) in
    let matched : FlowState × EngineReport =
      condemn flow report (direction p ++ (codes " (" ++ (flow.sni ++ codes ")")))
        (domain_reason rule) in
    if is_found flow.sni_status
    then (if is_empty rule then allowed else matched)
    else (flow, report)

-- `isBlockedIp` of either address, and `isBlockedPort` of either port.
unfoldable pub matches_ip : BlockRules → ParsedPacket → Bool
matches_ip rules p = is_blocked_ip rules p.dst_ip || is_blocked_ip rules p.src_ip

unfoldable pub matches_port : BlockRules → ParsedPacket → Bool
matches_port rules p =
    p.has_l4
    && (is_blocked_port rules p.protocol p.dst_port || is_blocked_port rules p.protocol p.src_port)

abbrev pub matched_port : BlockRules → ParsedPacket → ℕ
matched_port rules p =
    if is_blocked_port rules p.protocol p.dst_port then p.dst_port else p.src_port

-- From the test of `flow.blocked` to the end of `processParsedPacket`.
unfoldable pub inspect :
    BlockRules
    → FlowState
    → EngineReport
    → ParsedPacket
    → List ℕ
    → Option (FlowState × EngineReport)
inspect rules flow report p bytes =
    let decided : FlowState × EngineReport =
      (flow, record report { blocked_packets = add64 report.blocked_packets 1 }) in
    let by_ip = condemn flow report (direction p) ip_reason in
    let by_port =
      condemn flow report (direction p) (port_reason p.protocol (matched_port rules p)) in
    let by_name : Option (FlowState × EngineReport) =
      extract flow p bytes >>= λ f. some (inspect_domain rules f report p) in
    if flow.blocked
    then some decided
    else (if matches_ip rules p
        then some by_ip
        else (if matches_port rules p then some by_port else by_name))

abbrev pub or_fresh : FiveTuple → Option FlowState → FlowState
or_fresh t none = fresh_flow t
or_fresh t (some f) = f

abbrev pub one_if_none : Option FlowState → ℕ
one_if_none none = 1
one_if_none (some f) = 0

-- The flow of a packet, found or new, with the packet counted.
unfoldable pub count_packet : FlowState → List ℕ → FlowState
count_packet flow bytes = record flow {
  packet_count = add64 flow.packet_count 1;
  byte_count = add64 flow.byte_count (length bytes);
}

-- `processParsedPacket`; `elapsed` is what the clock measures for the call.
unfoldable pub process_parsed_packet : DpiEngine → List ℕ → ParsedPacket → ℕ → Option DpiEngine
process_parsed_packet engine bytes p elapsed =
    let known = find_flow (tuple p) engine.flows in
    let report = record (engine.report) {
      total_packets = add64 engine.report.total_packets 1;
      total_flows = add64 engine.report.total_flows (one_if_none known);
    } in
    let flow = count_packet (or_fresh (tuple p) known) bytes in
    let processed : Option DpiEngine = inspect engine.rules flow report p bytes >>= λ done.
    some (record engine {
      flows = set_flow (tuple p) done.0 engine.flows;
      report = record (done.1) {
        packet_latencies_ns = done.1.packet_latencies_ns ++ (elapsed ∷ []);
      };
    }) in
    if not p.has_ip then some engine else processed

-- `processPacket`
unfoldable pub process_packet : DpiEngine → RawPacket → ℕ → Option DpiEngine
process_packet engine raw elapsed = parse raw.bytes >>= λ parsed.
    if not parsed.0 then some engine else process_parsed_packet engine raw.bytes parsed.1 elapsed

-- The loop of `processFile`, over the packets that the reader gives.
unfoldable pub process_packets : DpiEngine → List (RawPacket × ℕ) → Option DpiEngine
process_packets engine [] = some engine
process_packets engine ((raw, elapsed) ∷ rest) =
    process_packet engine raw elapsed >>= λ engine'. process_packets engine' rest
