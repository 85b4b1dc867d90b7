-- ===== src/Concurrent/Segments/Tests.antt =====
-- The ClientHello of the host name "a" in two segments, cut behind the record's header.
use flow_dpi.Prelude.{ℕ, ◌≡◌, refl, List, [], ◌∷◌, ◌++◌, length, take, drop, true, some, arith}
use flow_dpi.Types.{tcp, FiveTuple, empty_packet, tuple}
use flow_dpi.Prelude.Text.{list_eq}
use flow_dpi.Rules.{
  contains, BlockRules, is_blocked_ip, is_blocked_port, match_blocked_domain, matches_rule,
  first_match,
}
use flow_dpi.Bench.{build_client_hello_record}
use flow_dpi.Engine.{matches_ip, matches_port, payload_bytes}
use flow_dpi.Engine.Describe.{codes}
use flow_dpi.Engine.State.{DpiEngine, new_engine, find_flow}
use flow_dpi.Concurrent.{WorkItem, process_items}
use flow_dpi.Concurrent.Segments.{IsSegment, Carries, carries_nothing, carries, IsCondemned}
use flow_dpi.Concurrent.Segments.Arrival.{process_items-IsCondemned}

abbrev one_name : BlockRules
one_name = record { blocked_ips = []; blocked_ports = []; blocked_domains = codes "a" ∷ [] }

abbrev hello : List ℕ
hello = build_client_hello_record (codes "a")

-- A packet whose buffer is its payload.
abbrev carrier : ℕ → List ℕ → WorkItem
carrier seq payload = record {
  raw = record {
    header = record { ts_sec = 0; ts_usec = 0; incl_len = 0; orig_len = 0 };
    bytes = payload;
  };
  parsed = record empty_packet {
    has_ip = true;
    has_l4 = true;
    protocol = tcp;
    tcp_seq = seq;
    payload = some 0;
    payload_len = length payload;
  };
  elapsed = 1;
}

abbrev flow_of_two : FiveTuple
flow_of_two = tuple (carrier 0 []).parsed

carrier-IsSegment :
    (seq : ℕ) (chunk : List ℕ)
    → payload_bytes chunk (carrier seq chunk).parsed ≡ some chunk
    → IsSegment one_name flow_of_two seq chunk (carrier seq chunk)
unfolding matches_ip matches_port is_blocked_ip is_blocked_port contains
carrier-IsSegment seq chunk payload = record {
  ip = refl;
  l4 = refl;
  transport = refl;
  flow = refl;
  number = refl;
  payload = payload;
  no_ip = refl;
  no_port = refl;
}

two_segments :
    Carries one_name flow_of_two 7
      (take 5 hello ∷ (drop 5 hello ++ (b'x' ∷ [])) ∷ [])
      (carrier 7 (take 5 hello) ∷ carrier 12 (drop 5 hello ++ (b'x' ∷ [])) ∷ [])
unfolding payload_bytes build_client_hello_record
two_segments =
    carries (carrier-IsSegment 7 (take 5 hello) refl)
      (carries (carrier-IsSegment 12 (drop 5 hello ++ (b'x' ∷ [])) refl) carries_nothing)

process_items-IsCondemned_example :
    (engine : DpiEngine) × (process_items
        (new_engine one_name)
        (carrier 7 (take 5 hello) ∷ carrier 12 (drop 5 hello ++ (b'x' ∷ [])) ∷ [])
      ≡ some engine)
    × IsCondemned (new_engine one_name).report one_name flow_of_two (codes "a") engine
unfolding build_client_hello_record find_flow match_blocked_domain first_match matches_rule list_eq
process_items-IsCondemned_example =
    process_items-IsCondemned (new_engine one_name) flow_of_two 7 (codes "a") (drop 5 hello)
      (b'x' ∷ []) (take 5 hello ∷ [])
      (carrier 7 (take 5 hello) ∷ carrier 12 (drop 5 hello ++ (b'x' ∷ [])) ∷ []) (omega arith)
      (omega arith) (omega arith) refl (omega arith) refl two_segments refl
