-- ===== src/Engine/Tests.antt =====
-- The engine on the benchmark's frames, and each theorem of this folder at an input.
use flow_dpi.Prelude.{
  ℕ, ◌≡◌, ◌++◌, refl, List, [], ◌∷◌, Bool, true, false, Option, none, some, arith,
}
use flow_dpi.Bench.{build_tcp_frame, build_client_hello_record}
use flow_dpi.Types.{empty_packet, ParsedPacket, RawPacket, FiveTuple, tuple}
use flow_dpi.Rules.{
  BlockRules, no_rules, contains, first_match, matches_rule, port_key, is_blocked_ip,
  is_blocked_port, match_blocked_domain,
}
use flow_dpi.Packet.{parse}
use flow_dpi.Engine.{
  domain_reason, ip_reason, process_packets, process_parsed_packet, process_packet, count_packet,
  inspect, inspect_domain, extract, matches_ip, matches_port, payload_bytes, try_resolve_sni,
  resolve, condemn,
}
use flow_dpi.Prelude.Fallible.{◌>>=◌}
use flow_dpi.Prelude.Text.{list_eq}
use flow_dpi.Tls.{try_extract_sni}
use flow_dpi.Tcp.{
  assign, place_cursor, store_segment, add_segment, seq_less_than, consume, pull_loop,
  pull_contiguous,
}
use flow_dpi.Engine.State.{
  set_flow, BlockedEntry, SniAttemptStatus, FlowState, fresh_flow, EngineReport, empty_report,
  tuple_eq, find_flow, DpiEngine, new_engine,
}
use flow_dpi.Packet.Shape.{IsWellFormed}
use flow_dpi.Engine.Table.{tuple_eq_refl}
use flow_dpi.Engine.Verdict.{Verdict}
use flow_dpi.Engine.Invariant.{IsValid, flow_before, report_before}
use flow_dpi.Engine.Run.{process_packets-IsValid, new_engine-IsValid}
use flow_dpi.Engine.Lasting.{
  Holds, IsCondemned, IsSettled, process_packets-IsCondemned, process_packets-IsSettled,
}
use flow_dpi.Engine.Describe.{codes}
use flow_dpi.Packet.Frame.{frame_packet, parse-build_tcp_frame}
use flow_dpi.Engine.Hello.{frame_tuple, process_packet-condemns}
use flow_dpi.Engine.Padding.{padded_ack, padding_hides}
use flow_dpi.Engine.Effect.{process_parsed_packet-Verdict}
use flow_dpi.Engine.Observed.{parse-IsWellFormed, IsAllowed, observed_snis-replicate}

abbrev name : List ℕ
name = b'a' ∷ b'.' ∷ b'b' ∷ []

abbrev raw : RawPacket
raw = record {
  header = record { ts_sec = 0; ts_usec = 0; incl_len = 0; orig_len = 0 };
  bytes = build_tcp_frame (build_client_hello_record name);
}

abbrev rules : BlockRules
rules = record { blocked_ips = []; blocked_ports = []; blocked_domains = (b'b' ∷ []) ∷ [] }

abbrev outcome : Option DpiEngine → Option (ℕ × ℕ × ℕ × List (List ℕ))
outcome none = none
outcome (some e) =
    some (
      e.report.total_flows, e.report.blocked_flows, e.report.blocked_packets,
      e.report.observed_snis,
    )

abbrev both_frames : List (RawPacket × ℕ)
both_frames = (raw, 5) ∷ (raw, 6) ∷ []

-- The name is found in the first frame. With a rule for it both frames count as blocked; with no
-- rule it is listed twice.
two_frames :
    (outcome (process_packets (new_engine rules) both_frames) ≡ some (1, 1, 2, []))
    × (outcome (process_packets (new_engine no_rules) both_frames)
        ≡ some (1, 0, 0, name ∷ name ∷ []))
unfolding process_packets process_packet process_parsed_packet count_packet inspect inspect_domain
    extract matches_ip matches_port payload_bytes try_resolve_sni resolve condemn find_flow set_flow
    tuple_eq parse try_extract_sni build_tcp_frame build_client_hello_record ◌>>=◌ add_segment
    store_segment place_cursor assign seq_less_than pull_contiguous pull_loop consume is_blocked_ip
    is_blocked_port contains port_key match_blocked_domain first_match matches_rule list_eq
two_frames = (refl, refl)

process_packets-IsValid_example :
    (engine' : DpiEngine) × (process_packets (new_engine rules) both_frames ≡ some engine')
    × IsValid engine'
process_packets-IsValid_example =
    process_packets-IsValid (new_engine rules) both_frames (new_engine-IsValid rules)

-- The packet that the frame parses to.
abbrev packet_of : Option (Bool × ParsedPacket) → ParsedPacket
packet_of none = empty_packet
packet_of (some (ok, p)) = p

abbrev packet : ParsedPacket
packet = packet_of (parse raw.bytes)

packet_parsed : parse raw.bytes ≡ some (true, packet)
unfolding parse build_tcp_frame build_client_hello_record
packet_parsed = refl

packet_ip : packet.has_ip ≡ true
unfolding parse build_tcp_frame build_client_hello_record
packet_ip = refl

packet_sane : IsWellFormed raw.bytes packet
packet_sane = parse-IsWellFormed raw.bytes packet packet_parsed

-- An engine with one flow, of the packet's direction.
abbrev engine_of : FlowState → ℕ → List BlockedEntry → DpiEngine
engine_of flow blocked entries = record {
  rules = no_rules;
  flows = (tuple packet, flow) ∷ [];
  report = record empty_report {
    total_packets = 1;
    total_flows = 1;
    blocked_flows = blocked;
    blocked_entries = entries;
    packet_latencies_ns = 5 ∷ [];
  };
}

abbrev condemned : DpiEngine
condemned =
    engine_of (record (fresh_flow (tuple packet)) { blocked = true; block_reason = ip_reason }) 1
      (record { description = []; reason = ip_reason } ∷ [])

abbrev named : DpiEngine
named =
    engine_of
      (record (fresh_flow (tuple packet)) { sni_status = SniAttemptStatus.found; sni = name }) 0 []

condemned-IsValid : IsValid condemned
condemned-IsValid = record {
  tidy = (record { word = omega arith; bounded = omega arith; released = λ _. refl }, tt);
  total_flows = refl;
  blocked_flows = refl;
  entries = refl;
  packets = refl;
}

named-IsValid : IsValid named
named-IsValid = record {
  tidy = (record { word = omega arith; bounded = omega arith; released = λ _. refl }, tt);
  total_flows = refl;
  blocked_flows = refl;
  entries = refl;
  packets = refl;
}

packet_found : (flow : FlowState) → find_flow (tuple packet) ((tuple packet, flow) ∷ []) ≡ some flow
unfolding find_flow
packet_found flow = rw (tuple_eq_refl (tuple packet)) refl

process_packets-IsCondemned_example :
    (engine' : DpiEngine) × (process_packets condemned both_frames ≡ some engine')
    × Holds (tuple packet) (IsCondemned ip_reason) engine'
process_packets-IsCondemned_example =
    process_packets-IsCondemned condemned both_frames (tuple packet) ip_reason condemned-IsValid
      (_, packet_found _, (refl, refl))

process_packets-IsSettled_example :
    (engine' : DpiEngine) × (process_packets named both_frames ≡ some engine')
    × Holds (tuple packet) (IsSettled SniAttemptStatus.found name) engine'
process_packets-IsSettled_example =
    process_packets-IsSettled named both_frames (tuple packet) SniAttemptStatus.found name
      named-IsValid refl (_, packet_found _, (refl, refl))

process_parsed_packet-Verdict_example :
    (engine' : DpiEngine) × (flow : FlowState) × (report : EngineReport) × (process_parsed_packet
        named raw.bytes packet 7
      ≡ some engine')
    × (find_flow (tuple packet) engine'.flows ≡ some flow)
    × Verdict named.rules packet
        (flow_before named raw.bytes packet)
        flow
        (report_before named packet)
        report
    × (engine'.report
        ≡ record report { packet_latencies_ns = report.packet_latencies_ns ++ (7 ∷ []) })
    × (engine'.rules ≡ named.rules)
    × ((u : FiveTuple)
        → tuple_eq (tuple packet) u ≡ false
        → find_flow u engine'.flows ≡ find_flow u named.flows)
process_parsed_packet-Verdict_example =
    process_parsed_packet-Verdict named raw.bytes packet 7 named-IsValid packet_sane packet_ip

nothing_matches : IsAllowed no_rules packet name
unfolding matches_ip matches_port is_blocked_ip is_blocked_port contains match_blocked_domain
    first_match
nothing_matches = (refl, ground arith, refl)

-- Two packets of the flow, with other bytes and another reading of the clock.
abbrev later : RawPacket
later = record { header = raw.header; bytes = build_tcp_frame (b'h' ∷ []) ++ (0 ∷ []) }

same_flow : tuple (frame_packet 2) ≡ tuple packet
unfolding parse build_tcp_frame build_client_hello_record
same_flow = refl

nothing_matches_later : IsAllowed no_rules (frame_packet 2) name
unfolding matches_ip matches_port is_blocked_ip is_blocked_port contains match_blocked_domain
    first_match
nothing_matches_later = (refl, refl, refl)

observed_snis-replicate_example :
    (engine' : DpiEngine) × (process_packets named ((raw, 5) ∷ (later, 7) ∷ []) ≡ some engine')
    × (engine'.report.observed_snis ≡ name ∷ name ∷ [])
observed_snis-replicate_example =
    observed_snis-replicate ((raw, 5) ∷ (later, 7) ∷ []) (tuple packet) name named named-IsValid
      (_, packet_found _, (refl, refl, refl))
      (
        (packet, packet_parsed, packet_ip, refl, nothing_matches),
        (
          (
            frame_packet 2,
            (parse-build_tcp_frame (b'h' ∷ []) (0 ∷ [])).0,
            refl,
            same_flow,
            nothing_matches_later,
          ),
          tt,
        ),
      )

process_packet-condemns_example :
    (engine : DpiEngine) × (process_packet
        (new_engine rules)
        (record {
          header = raw.header;
          bytes = build_tcp_frame (build_client_hello_record name) ++ (0 ∷ []);
        })
        5
      ≡ some engine)
    × (engine.report.blocked_flows ≡ 1)
    × (engine.report.blocked_packets ≡ 1)
    × (engine.report.observed_snis ≡ [])
    × (engine.report.blocked_entries
        ≡ record {
          description =
              codes "192.168.1.1:55000 -> 8.8.8.8:443" ++ (codes " (" ++ (name ++ codes ")"));
          reason = domain_reason (match_blocked_domain rules name);
        }
          ∷ [])
    × ((flow : FlowState) × (find_flow frame_tuple engine.flows ≡ some flow)
        × (flow.sni ≡ name)
        × (flow.blocked ≡ true)
        × (flow.block_reason ≡ domain_reason (match_blocked_domain rules name)))
unfolding matches_ip matches_port is_blocked_ip is_blocked_port contains match_blocked_domain
    first_match matches_rule list_eq
process_packet-condemns_example =
    process_packet-condemns rules raw.header 5 name (0 ∷ []) (omega arith) (omega arith) refl refl
      refl

padding_hides_example :
    (engine : DpiEngine) × (process_packets (new_engine rules) (
        (record { header = raw.header; bytes = padded_ack }, 5)
        ∷ (
          record { header = raw.header; bytes = build_tcp_frame (build_client_hello_record name) },
          6,
        )
        ∷ [])
      ≡ some engine)
    × (engine.report.blocked_flows ≡ 0)
    × (engine.report.blocked_entries ≡ [])
    × (engine.report.observed_snis ≡ [])
unfolding matches_ip matches_port is_blocked_ip is_blocked_port contains
padding_hides_example = padding_hides rules raw.header raw.header 5 6 name refl refl
