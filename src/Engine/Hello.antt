-- ===== src/Engine/Hello.antt =====
-- A ClientHello in one frame, from the frame's bytes to the entry in the report.
use flow_dpi.Prelude.{
  ℕ, ◌+◌, ◌%◌, ◌^◌, ◌<◌, ◌≡◌, refl, sym, ap, ◌∙◌, List, [], ◌∷◌, ◌++◌, length, length-append, true,
  false, some, some_injective, none-ne_some, Option-cases, inl, inr, le→leb, is_empty, arith,
}
use flow_dpi.Prelude.Text.{to_string}
use flow_dpi.Prelude.Fallible.{◌>>=◌, bind-some}
use flow_dpi.Types.{FiveTuple, PcapPacketHeader, RawPacket, ParsedPacket, tuple}
use flow_dpi.Rules.{BlockRules, match_blocked_domain}
use flow_dpi.Bench.{build_tcp_frame, build_client_hello_record}
use flow_dpi.Packet.{parse}
use flow_dpi.Packet.Frame.{length-build_tcp_frame, frame_packet, parse-build_tcp_frame}
use flow_dpi.Tcp.{Reassembler, fresh, feed, add_segment, pull_contiguous}
use flow_dpi.Tcp.Stream.{idle, feed_next, place_fresh}
use flow_dpi.Tls.{try_extract_sni}
use flow_dpi.Tls.Monad.{TlsParseStatus}
use flow_dpi.Tls.RoundTrip.{
  length-build_client_hello_record, try_extract_sni-build_client_hello_record,
}
use flow_dpi.Engine.{
  direction, domain_reason, matches_ip, matches_port, payload_bytes, extract, resolve,
  try_resolve_sni, inspect_domain, inspect, condemn, count_packet, process_parsed_packet,
  process_packet,
}
use flow_dpi.Engine.Describe.{codes, describe_direction}
use flow_dpi.Engine.Run.{process_packet-accepted}
use flow_dpi.Engine.Table.{find_flow-set_flow}
use flow_dpi.Engine.State.{
  SniAttemptStatus, FlowState, fresh_flow, EngineReport, empty_report, find_flow, set_flow,
  DpiEngine, new_engine,
}

-- What a segment and the pull behind it give, taken apart.
pub feed-split :
    (r last : Reassembler) (seq : ℕ) (segment bytes : List ℕ)
    → feed r seq segment ≡ some (last, bytes)
    → (middle : Reassembler) × (add_segment r seq segment ≡ some middle)
      × (pull_contiguous middle ≡ (last, bytes))
unfolding feed ◌>>=◌
feed-split r last seq segment bytes e = elim (Option-cases (add_segment r seq segment)) [
  | inl nothing ↦ absurd (none-ne_some (sym (rw nothing refl) ∙ e))
  | inr (middle, f) ↦ (middle, f, some_injective (sym (rw f refl) ∙ e))
]

-- Whatever stands in the buffer already, when bytes are there behind the pull.
pub try_resolve_sni-pulled :
    (flow : FlowState) (middle r : Reassembler) (chunk : List ℕ) (x : ℕ) (xs : List ℕ)
    (answer : TlsParseStatus × List ℕ)
    → pull_contiguous middle ≡ (r, chunk)
    → flow.sni_buffer ++ chunk ≡ x ∷ xs
    → try_extract_sni (x ∷ xs) ≡ some answer
    → try_resolve_sni (record flow { reassembler = middle })
      ≡ some (resolve (record flow { reassembler = r; sni_buffer = x ∷ xs }) answer)
unfolding try_resolve_sni
try_resolve_sni-pulled flow middle r chunk x xs answer g cons e =
    rw g (rw cons (bind-some _ e refl))

-- The first bytes of a flow go straight to the parser.
extract-first :
    (t : FiveTuple) (bytes : List ℕ) (n x : ℕ) (xs : List ℕ) (answer : TlsParseStatus × List ℕ)
    → length (x ∷ xs) < 2 ^ 31
    → payload_bytes bytes (frame_packet n) ≡ some (x ∷ xs)
    → try_extract_sni (x ∷ xs) ≡ some answer
    → (r : Reassembler) × (extract (count_packet (fresh_flow t) bytes) (frame_packet n) bytes
        ≡ some (
            resolve
              (record (count_packet (fresh_flow t) bytes) { reassembler = r; sni_buffer = x ∷ xs })
              answer))
unfolding extract count_packet
extract-first t bytes n x xs answer short payload e =
    let last : Reassembler = idle true ((1 + length (x ∷ xs)) % 2 ^ 32) in
    let (middle, f, g) =
      feed-split fresh last 1 (x ∷ xs) (x ∷ xs)
        (feed_next fresh false 1 x xs (omega arith) short (place_fresh 1)) in
    (
      last,
      bind-some _ payload (
          bind-some _ f (
            try_resolve_sni-pulled (count_packet (fresh_flow t) bytes) middle last (x ∷ xs) x xs
              answer g refl e)),
    )

-- A flow that no earlier verdict and no rule on addresses or ports decides.
pub inspect-undecided :
    (rules : BlockRules) (flow after : FlowState) (report : EngineReport) (p : ParsedPacket)
    (bytes : List ℕ)
    → flow.blocked ≡ false
    → matches_ip rules p ≡ false
    → matches_port rules p ≡ false
    → extract flow p bytes ≡ some after
    → inspect rules flow report p bytes ≡ some (inspect_domain rules after report p)
unfolding inspect
inspect-undecided rules flow after report p bytes still_free no_ip no_port e =
    simp (still_free, no_ip, no_port) (bind-some _ e refl)

-- The report when the first packet is inspected, and the engine behind it.
abbrev pub first_report : EngineReport
first_report = record empty_report { total_packets = 1; total_flows = 1 }

abbrev pub after_first : BlockRules → ParsedPacket → ℕ → FlowState × EngineReport → DpiEngine
after_first rules p elapsed done = record {
  rules = rules;
  flows = (tuple p, done.0) ∷ [];
  report = record (done.1) { packet_latencies_ns = done.1.packet_latencies_ns ++ (elapsed ∷ []) };
}

pub process_packet-first :
    (rules : BlockRules) (raw : RawPacket) (elapsed n : ℕ) (done : FlowState × EngineReport)
    → parse raw.bytes ≡ some (true, frame_packet n)
    → inspect rules
        (count_packet (fresh_flow (tuple (frame_packet n))) raw.bytes)
        first_report
        (frame_packet n)
        raw.bytes
      ≡ some done
    → process_packet (new_engine rules) raw elapsed
      ≡ some (after_first rules (frame_packet n) elapsed done)
unfolding process_parsed_packet find_flow set_flow
process_packet-first rules raw elapsed n done e f =
    process_packet-accepted (new_engine rules) raw elapsed true (frame_packet n) e refl
    ∙ bind-some _ f refl

-- The payload that the engine reads off the frame.
pub payload_bytes-frame :
    (payload trailer : List ℕ)
    → payload_bytes
        (build_tcp_frame payload ++ trailer)
        (frame_packet (length payload + length trailer))
      ≡ some (payload ++ trailer)
unfolding payload_bytes
payload_bytes-frame payload trailer =
    rw
      (le→leb (54 + (length payload + length trailer)) (length (build_tcp_frame payload ++ trailer))
        (omega
          (arith, length-append (build_tcp_frame payload) trailer, length-build_tcp_frame payload)))
      (ap some (parse-build_tcp_frame payload trailer).1)

-- The first frame of a flow whose bytes the TLS parser answers for.
pub process_packet-answered :
    (rules : BlockRules) (header : PcapPacketHeader) (elapsed : ℕ) (payload trailer : List ℕ)
    (x : ℕ) (xs : List ℕ) (answer : TlsParseStatus × List ℕ)
    → payload ++ trailer ≡ x ∷ xs
    → length payload + length trailer < 2 ^ 31
    → matches_ip rules (frame_packet (length payload + length trailer)) ≡ false
    → matches_port rules (frame_packet (length payload + length trailer)) ≡ false
    → try_extract_sni (x ∷ xs) ≡ some answer
    → (flow : FlowState) × (flow.blocked ≡ false)
      × (process_packet
            (new_engine rules)
            (record { header = header; bytes = build_tcp_frame payload ++ trailer })
            elapsed
          ≡ some (
              after_first rules (frame_packet (length payload + length trailer)) elapsed (
                inspect_domain rules
                  (resolve flow answer)
                  first_report
                  (frame_packet (length payload + length trailer)))))
unfolding count_packet
process_packet-answered rules header elapsed payload trailer x xs answer cons short no_ip no_port
      e =
    let n = length payload + length trailer in
    let bytes = build_tcp_frame payload ++ trailer in
    let (r, f) =
      extract-first (tuple (frame_packet n)) bytes n x xs answer
        (omega (arith, ap length cons, short, length-append payload trailer))
        (payload_bytes-frame payload trailer ∙ ap some cons) e in
    (
      _,
      refl,
      process_packet-first rules (record { header = header; bytes = bytes }) elapsed n _
          (parse-build_tcp_frame payload trailer).0
          (inspect-undecided rules (count_packet (fresh_flow (tuple (frame_packet n))) bytes) _
            first_report (frame_packet n) bytes refl no_ip no_port f),
    )

pub inspect_domain-matched :
    (rules : BlockRules) (flow : FlowState) (report : EngineReport) (p : ParsedPacket)
    → flow.sni_status ≡ SniAttemptStatus.found
    → is_empty (match_blocked_domain rules flow.sni) ≡ false
    → inspect_domain rules flow report p
      ≡ condemn flow report
          (direction p ++ (codes " (" ++ (flow.sni ++ codes ")")))
          (domain_reason (match_blocked_domain rules flow.sni))
unfolding inspect_domain
inspect_domain-matched rules flow report p known matched = simp (known, matched)

-- The tuple of the frames that are built.
abbrev pub frame_tuple : FiveTuple
frame_tuple = tuple (frame_packet 0)

-- In a new engine, the frame that is built around the ClientHello of a host name, of less than
-- 2 ^ 16 - 58 bytes, with less than 2 ^ 30 bytes behind it: when no rule matches an address or a port
-- of the flow and a domain rule matches the name, the flow is in the table, with the name, blocked for
-- that rule; it is counted and reported with the name and the rule, and nothing else is.
pub process_packet-condemns :
    (rules : BlockRules) (header : PcapPacketHeader) (elapsed : ℕ) (host trailer : List ℕ)
    → 58 + length host < 2 ^ 16
    → length trailer < 2 ^ 30
    → matches_ip rules (frame_packet (length (build_client_hello_record host) + length trailer))
      ≡ false
    → matches_port rules (frame_packet (length (build_client_hello_record host) + length trailer))
      ≡ false
    → is_empty (match_blocked_domain rules host) ≡ false
    → (engine : DpiEngine) × (process_packet
          (new_engine rules)
          (record {
            header = header;
            bytes = build_tcp_frame (build_client_hello_record host) ++ trailer;
          })
          elapsed
        ≡ some engine)
      × (engine.report.blocked_flows ≡ 1)
      × (engine.report.blocked_packets ≡ 1)
      × (engine.report.observed_snis ≡ [])
      × (engine.report.blocked_entries
          ≡ record {
            description =
                codes "192.168.1.1:55000 -> 8.8.8.8:443" ++ (codes " (" ++ (host ++ codes ")"));
            reason = domain_reason (match_blocked_domain rules host);
          }
            ∷ [])
      × ((flow : FlowState) × (find_flow frame_tuple engine.flows ≡ some flow)
          × (flow.sni ≡ host)
          × (flow.blocked ≡ true)
          × (flow.block_reason ≡ domain_reason (match_blocked_domain rules host)))
unfolding set_flow condemn resolve count_packet build_client_hello_record describe_direction
    to_string
process_packet-condemns rules header elapsed host trailer fits short no_ip no_port matched =
    let n = length (build_client_hello_record host) + length trailer in
    let (flow, still_free, e) =
      process_packet-answered rules header elapsed (build_client_hello_record host) trailer _ _
        (TlsParseStatus.found, host) refl
        (omega (arith, fits, short, length-build_client_hello_record host)) no_ip no_port
        (try_extract_sni-build_client_hello_record host trailer fits) in
    (
      _,
      e
          ∙ ap (λ d. some (after_first rules (frame_packet n) elapsed d))
              (inspect_domain-matched rules (resolve flow (TlsParseStatus.found, host)) first_report
                (frame_packet n) refl matched),
      refl,
      refl,
      refl,
      refl,
      (_, find_flow-set_flow frame_tuple _ [], refl, refl, refl),
    )
