-- ===== src/Engine/State.antt =====
-- include/dpi_engine.h: what the engine keeps of a flow, its report, and the table of flows.
use flow_dpi.Prelude.{
  ℕ, ◌+◌, ◌%◌, ◌^◌, List, [], ◌∷◌, Bool, true, false, ◌&&◌, Option, none, some, ◌==◌, if◌then◌else◌,
}
use flow_dpi.Types.{FiveTuple, protocol_number}
use flow_dpi.Tcp.{Reassembler, fresh}
use flow_dpi.Rules.{BlockRules}

-- `enum class SniAttemptStatus`
pub data SniAttemptStatus : Type 0 where
  pending found no_sni not_tls malformed gave_up : SniAttemptStatus

-- `status == SniAttemptStatus::Pending` and `… == Found`
abbrev pub is_pending : SniAttemptStatus → Bool
is_pending pending = true
is_pending _ = false

abbrev pub is_found : SniAttemptStatus → Bool
is_found found = true
is_found _ = false

-- `FlowState`
pub record FlowState : Type 0 where
  pub tuple : FiveTuple
  pub reassembler : Reassembler
  pub sni_buffer : List ℕ
  pub sni_status : SniAttemptStatus
  pub sni : List ℕ
  pub blocked : Bool
  pub block_reason : List ℕ
  pub packet_count : ℕ
  pub byte_count : ℕ

abbrev pub fresh_flow : FiveTuple → FlowState
fresh_flow t = record {
  tuple = t;
  reassembler = fresh;
  sni_buffer = [];
  sni_status = pending;
  sni = [];
  blocked = false;
  block_reason = [];
  packet_count = 0;
  byte_count = 0;
}

-- `EngineReport::BlockedEntry`
pub record BlockedEntry : Type 0 where
  pub description : List ℕ
  pub reason : List ℕ

-- `EngineReport`; a latency is a whole number of nanoseconds.
pub record EngineReport : Type 0 where
  pub total_packets : ℕ
  pub total_flows : ℕ
  pub blocked_flows : ℕ
  pub blocked_packets : ℕ
  pub blocked_entries : List BlockedEntry
  pub observed_snis : List (List ℕ)
  pub packet_latencies_ns : List ℕ

abbrev pub empty_report : EngineReport
empty_report = record {
  total_packets = 0;
  total_flows = 0;
  blocked_flows = 0;
  blocked_packets = 0;
  blocked_entries = [];
  observed_snis = [];
  packet_latencies_ns = [];
}

-- uint64_t sums
abbrev pub add64 : ℕ → ℕ → ℕ
add64 a b = (a + b) % 2 ^ 64

-- `FiveTuple::operator==`
unfoldable pub tuple_eq : FiveTuple → FiveTuple → Bool
tuple_eq a b =
    a.src_ip == b.src_ip
    && (a.dst_ip == b.dst_ip
        && (a.src_port == b.src_port
            && (a.dst_port == b.dst_port
                && protocol_number a.protocol == protocol_number b.protocol)))

-- The `unordered_map`: an entry for each key that it holds.
abbrev pub Flows : Type 0
Flows = List (FiveTuple × FlowState)

-- `flows_.find`
unfoldable pub find_flow : FiveTuple → Flows → Option FlowState
find_flow t [] = none
find_flow t ((k, f) ∷ m) = if tuple_eq k t then some f else find_flow t m

-- The entry of a key is set through the reference that `find` or `emplace` gives.
unfoldable pub set_flow : FiveTuple → FlowState → Flows → Flows
set_flow t g [] = (t, g) ∷ []
set_flow t g ((k, f) ∷ m) = if tuple_eq k t then (k, g) ∷ m else (k, f) ∷ set_flow t g m

-- `DpiEngine`
pub record DpiEngine : Type 0 where
  pub rules : BlockRules
  pub flows : Flows
  pub report : EngineReport

abbrev pub new_engine : BlockRules → DpiEngine
new_engine rules = record { rules = rules; flows = []; report = empty_report }
