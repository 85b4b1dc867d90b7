-- ===== src/Engine/Padding.antt =====
-- What the bytes that pad a short Ethernet frame do to the stream of its flow.
use flow_dpi.Prelude.{
  ℕ, ◌+◌, ◌≡◌, refl, sym, ap, ◌∙◌, List, [], ◌∷◌, ◌++◌, length, append-nil, replicate, true, false,
  some, arith,
}
use flow_dpi.Prelude.Fallible.{bind-some}
use flow_dpi.Types.{PcapPacketHeader, RawPacket, tuple}
use flow_dpi.Rules.{BlockRules}
use flow_dpi.Bench.{build_tcp_frame, build_client_hello_record}
use flow_dpi.Packet.{parse}
use flow_dpi.Packet.Frame.{frame_packet, parse-build_tcp_frame}
use flow_dpi.Tls.{try_extract_sni}
use flow_dpi.Tls.Monad.{TlsParseStatus}
use flow_dpi.Engine.{
  matches_ip, matches_port, extract, resolve, inspect_domain, inspect, count_packet,
  process_parsed_packet, process_packet, process_packets,
}
use flow_dpi.Engine.Run.{process_packet-accepted}
use flow_dpi.Engine.Hello.{process_packet-answered, inspect-undecided}
use flow_dpi.Engine.State.{
  SniAttemptStatus, FlowState, EngineReport, find_flow, tuple_eq, DpiEngine, new_engine,
}

-- The bytes of an acknowledgement without payload: 54 of headers, and six up to the least length
-- of a frame.
abbrev pub padded_ack : List ℕ
padded_ack = build_tcp_frame [] ++ replicate 6 0

padding-not_tls : try_extract_sni (replicate 6 0) ≡ some (TlsParseStatus.not_tls, [])
unfolding try_extract_sni
padding-not_tls = refl

-- A flow that was found not to be TLS passes a packet that no other rule matches.
inspect-settled :
    (rules : BlockRules) (flow : FlowState) (report : EngineReport) (n : ℕ) (bytes : List ℕ)
    → flow.blocked ≡ false
    → flow.sni_status ≡ SniAttemptStatus.not_tls
    → matches_ip rules (frame_packet n) ≡ false
    → matches_port rules (frame_packet n) ≡ false
    → inspect rules flow report (frame_packet n) bytes ≡ some (flow, report)
unfolding extract inspect_domain
inspect-settled rules flow report n bytes still_free settled no_ip no_port =
    inspect-undecided rules flow flow report (frame_packet n) bytes still_free no_ip no_port
      (simp settled)
    ∙ simp settled

-- A later packet of the only flow, when the inspection changes nothing.
process_packet-passed :
    (rules : BlockRules) (flow : FlowState) (report : EngineReport) (raw : RawPacket)
    (elapsed n : ℕ)
    → flow.blocked ≡ false
    → flow.sni_status ≡ SniAttemptStatus.not_tls
    → matches_ip rules (frame_packet n) ≡ false
    → matches_port rules (frame_packet n) ≡ false
    → parse raw.bytes ≡ some (true, frame_packet n)
    → (engine : DpiEngine) × (process_packet
          (record { rules = rules; flows = (tuple (frame_packet n), flow) ∷ []; report = report })
          raw
          elapsed
        ≡ some engine)
      × (engine.report.blocked_flows ≡ report.blocked_flows)
      × (engine.report.blocked_entries ≡ report.blocked_entries)
      × (engine.report.observed_snis ≡ report.observed_snis)
unfolding process_parsed_packet find_flow tuple_eq count_packet
process_packet-passed rules flow report raw elapsed n still_free settled no_ip no_port e = (
  _,
  process_packet-accepted
        (record { rules = rules; flows = (tuple (frame_packet n), flow) ∷ []; report = report }) raw
        elapsed true (frame_packet n) e refl
      ∙ bind-some _
          (inspect-settled rules (count_packet flow raw.bytes) _ n raw.bytes still_free settled
            no_ip no_port)
          refl,
  refl,
  refl,
  refl,
)

-- In a new engine whose rules match no address and no port of the flow: when an acknowledgement that
-- the link padded comes first, with the sequence number that the ClientHello has, nothing is blocked
-- and no name observed, whatever the host name and the rules on domains, as the padding is taken for
-- the start of the stream.
pub padding_hides :
    (rules : BlockRules) (header header' : PcapPacketHeader) (elapsed elapsed' : ℕ) (host : List ℕ)
    → matches_ip rules (frame_packet 6) ≡ false
    → matches_port rules (frame_packet 6) ≡ false
    → (engine : DpiEngine) × (process_packets (new_engine rules) (
          (record { header = header; bytes = padded_ack }, elapsed)
          ∷ (
            record { header = header'; bytes = build_tcp_frame (build_client_hello_record host) },
            elapsed',
          )
          ∷ [])
        ≡ some engine)
      × (engine.report.blocked_flows ≡ 0)
      × (engine.report.blocked_entries ≡ [])
      × (engine.report.observed_snis ≡ [])
unfolding process_packets resolve inspect_domain matches_ip matches_port
padding_hides rules header header' elapsed elapsed' host no_ip no_port =
    let hello = build_client_hello_record host in
    let n = length hello + 0 in
    let raw : RawPacket = record { header = header'; bytes = build_tcp_frame hello } in
    let (flow, still_free, e) =
      process_packet-answered rules header elapsed [] (replicate 6 0) 0 (replicate 5 0)
        (TlsParseStatus.not_tls, []) refl (omega arith) no_ip no_port padding-not_tls in
    let parsed : parse (build_tcp_frame hello) ≡ some (true, frame_packet n) =
      ap parse (sym (append-nil (build_tcp_frame hello))) ∙ (parse-build_tcp_frame hello []).0 in
    let (engine, f, flows, entries, snis) =
      process_packet-passed rules (resolve flow (TlsParseStatus.not_tls, [])) _ raw elapsed' n
        still_free refl no_ip no_port parsed in
    (engine, bind-some _ e (bind-some _ f refl), flows, entries, snis)
